-- ===== src/BookMyShow/Print.antt =====
-- `printTree` of python/segment-tree.py: the lines it prints. The text of a number is a parameter.
use code_recipes.Common.{ℕ, ◌≡◌, refl, ◌+◌, suc, arith, List, [], ◌∷◌, ◌++◌, length, length-append}
use code_recipes.Common.Eq.{Str}
use code_recipes.Common.Text.{codes}
use code_recipes.BookMyShow.Tree.{Info, Segment, leaf, node}

module _ (text_of : ℕ → Str) where
  abbrev shown : Info → Str
  shown i =
      codes "["
      ++ (text_of i.l
          ++ (codes ", "
              ++ (text_of i.r
                  ++ (codes ") = max("
                      ++ (text_of i.max_row_seats
                          ++ (codes ") sum(" ++ (text_of i.sum_row_seats ++ codes ")")))))))

  unfoldable print_tree : Str → Segment → List Str
  print_tree indents (leaf i) = (indents ++ shown i) ∷ []
  print_tree indents (node i left right) =
      (indents ++ shown i)
      ∷ (print_tree (indents ++ codes "  ") left ++ print_tree (indents ++ codes "  ") right)

  abbrev segments : Segment → ℕ
  segments (leaf i) = 1
  segments (node i left right) = suc (segments left + segments right)

  -- One line for each segment.
  length-print_tree :
      (indents : Str) (seg : Segment) → length (print_tree indents seg) ≡ segments seg
  unfolding print_tree
  length-print_tree indents (leaf i) = refl
  length-print_tree indents (node i left right) = ground (
    arith,
    length-append (print_tree (indents ++ codes "  ") left)
        (print_tree (indents ++ codes "  ") right),
    length-print_tree (indents ++ codes "  ") left,
    length-print_tree (indents ++ codes "  ") right,
  )
