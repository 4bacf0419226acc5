-- ===== src/Fancy/Print.antt =====
-- `printTree` of python/segment-tree-2.py: the lines it prints. The text of a number is a parameter.
use code_recipes.Common.{ℕ, ◌≡◌, refl, ◌+◌, suc, arith, List, [], ◌∷◌, ◌++◌, length, length-append}
use code_recipes.Common.Eq.{Str}
use code_recipes.Common.Text.{codes}
use code_recipes.Fancy.Tree.{Info, Segment, leaf, node}

module _ (text_of : ℕ → Str) where
  abbrev shown : Info → Str
  shown i =
      codes "["
      ++ (text_of i.l
          ++ (codes ", "
              ++ (text_of i.r
                  ++ (codes ") = "
                      ++ (text_of i.a
                          ++ (codes " * " ++ (text_of i.c ++ (codes " + " ++ text_of i.b))))))))

  unfoldable print_tree : Str → Segment → List Str
  print_tree indents (leaf i) = (indents ++ shown i) ∷ []
  print_tree indents (node i lc rc) =
      (indents ++ shown i)
      ∷ (print_tree (indents ++ codes "  ") lc ++ print_tree (indents ++ codes "  ") rc)

  abbrev segments : Segment → ℕ
  segments (leaf i) = 1
  segments (node i lc rc) = suc (segments lc + segments rc)

  -- One line for each segment.
  length-print_tree :
      (indents : Str) (seg : Segment) → length (print_tree indents seg) ≡ segments seg
  unfolding print_tree
  length-print_tree indents (leaf i) = refl
  length-print_tree indents (node i lc rc) = ground (
    arith,
    length-append (print_tree (indents ++ codes "  ") lc) (print_tree (indents ++ codes "  ") rc),
    length-print_tree (indents ++ codes "  ") lc,
    length-print_tree (indents ++ codes "  ") rc,
  )
