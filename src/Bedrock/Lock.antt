-- ===== src/Bedrock/Lock.antt =====
-- `open_db_readonly`: the LOCK file of a database and its backup, around the call that opens it.
-- That call is LevelDB's: from the LOCK file it finds it gives a database, or `none` for an exception,
-- and the LOCK file it leaves; it does not touch the backup.
use code_recipes.Common.{◌≡◌, refl, Option, none, some, Bool, true, false, if◌then◌else◌}

-- The two files of the directory, each with its content where it exists.
pub record Files (F : Type 0) : Type 0 where
  pub lock : Option F
  pub backup : Option F

module _ {F D : Type 0} (leveldb : Option F → Option D × Option F) where
  abbrev pub exists : Option F → Bool
  exists none = false
  exists (some f) = true

  -- `shutil.move(lock_path, backup_path)`, and back
  abbrev pub set_aside : Files F → Files F
  set_aside fs = if exists fs.lock then record { lock = none; backup = fs.lock } else fs

  abbrev pub restore : Bool → Files F → Files F
  restore original_existed fs =
      if original_existed
      then (if exists fs.backup then record { lock = fs.backup; backup = none } else fs)
      else fs

  -- The `try`: the new LOCK is removed when a database is open.
  abbrev pub opened : Files F → Option D × Option F → Option D × Files F
  opened fs (some db, left) = (some db, record fs { lock = none })
  opened fs (none, left) = (none, record fs { lock = left })

  abbrev pub try_open : Files F → Option D × Files F
  try_open fs = opened fs (leveldb fs.lock)

  unfoldable pub open_db_readonly : Files F → Option D × Files F
  open_db_readonly fs =
      let tried = try_open (set_aside fs) in (tried.0, restore (exists fs.lock) tried.1)

  restore-opened :
      (f : F) (r : Option D × Option F)
      → restore true (opened (record { lock = none; backup = some f }) r).1
        ≡ record { lock = some f; backup = none }
  restore-opened f (some db, left) = refl
  restore-opened f (none, left) = refl

  -- A LOCK file that was there is back with its content, and no backup is left, whether LevelDB opens
  -- the database or raises an exception, whatever it does to LOCK and whatever backup there was.
  pub open_db_readonly-restores :
      (f : F) (old : Option F)
      → (open_db_readonly (record { lock = some f; backup = old })).1
        ≡ record { lock = some f; backup = none }
  unfolding open_db_readonly
  open_db_readonly-restores f old = restore-opened f (leveldb none)
