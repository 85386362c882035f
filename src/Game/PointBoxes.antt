-- ===== src/Game/PointBoxes.antt =====
-- The loop of `CheckForPointBox`, which erases from the vector that it runs over.
use upzp_game_process.Prelude.{
  ◌+◌, ◌≡◌, refl, sym, ap, ap₂, ◌∙◌, inl, inr, Bool, some, List, [], ◌∷◌, ◌++◌, append_assoc,
  length, length-append, get_elem?, if◌then◌else◌, Bool-cases,
}
use upzp_game_process.Prelude.Int.{ℤ, pos, ◌+ℤ◌, +ℤ_zero, zero_+ℤ, +ℤ_assoc}
use upzp_game_process.Doubles.{Doubles}
use upzp_game_process.Player.{Coordinates}
use upzp_game_process.Game.{PointBox, collects, check_loop, check_for_point_box, erase_at}

module _ {R : Type 0} where
  -- The boxes that pass no test, in their order.
  unfoldable pub remaining : (PointBox R → Bool) → List (PointBox R) → List (PointBox R)
  remaining test [] = []
  remaining test (b ∷ bs) = if test b then remaining test bs else b ∷ remaining test bs

  -- The values of the boxes that pass a test, added up.
  unfoldable pub gain : (PointBox R → Bool) → List (PointBox R) → ℤ
  gain test [] = pos 0
  gain test (b ∷ bs) = if test b then b.value +ℤ gain test bs else gain test bs

module _ {A : Type 0} where
  get_elem?-length :
      (xs : List A) (y : A) (ys : List A) → get_elem? (xs ++ (y ∷ ys)) (length xs) ≡ some y
  get_elem?-length [] y ys = refl
  get_elem?-length (x ∷ xs) y ys = get_elem?-length xs y ys

  erase_at-length :
      (xs : List A) (y : A) (ys : List A) → erase_at (length xs) (xs ++ (y ∷ ys)) ≡ xs ++ ys
  erase_at-length [] y ys = refl
  erase_at-length (x ∷ xs) y ys = ap (◌∷◌ x) (erase_at-length xs y ys)

length-snoc : {A : Type 0} (xs : List A) (y : A) → length (xs ++ (y ∷ [])) ≡ length xs + 1
length-snoc xs y = rw (length-append xs (y ∷ [])) refl

module _ {R F : Type 0} (fl : Doubles R F) (old new : Coordinates R) where
  -- The boxes before the index have been passed over, and those from it on are to be tested.
  check_loop_lem :
      (passed todo : List (PointBox R)) (score : ℤ)
      → check_loop fl (length todo) (length passed) old new (passed ++ todo) score
        ≡ (passed ++ remaining (collects fl old new) todo, score +ℤ gain (collects fl old new) todo)
  unfolding check_loop remaining gain
  check_loop_lem passed [] score = ap₂ (λ a b. (a, b)) refl (sym (+ℤ_zero score))
  check_loop_lem passed (b ∷ bs) score = elim (Bool-cases (collects fl old new b)) [
    | inl hit ↦
        rw (get_elem?-length passed b bs, check_loop)
          (rw (hit, erase_at-length passed b bs)
            (check_loop_lem passed bs (score +ℤ b.value)
              ∙ ap (λ (total : ℤ). (passed ++ remaining (collects fl old new) bs, total))
                  (+ℤ_assoc score b.value (gain (collects fl old new) bs))))
    | inr miss ↦
        rw (get_elem?-length passed b bs, check_loop)
          (rw (miss, ← length-snoc passed b)
            (rw (append_assoc passed (b ∷ []) bs, append_assoc passed (b ∷ []) _) at
              (check_loop_lem (passed ++ (b ∷ [])) bs score)))
  ]

  -- One pass over the boxes, though it erases from the vector under its index: the boxes that the
  -- movement collects are gone, the others stay in their order, and the result is the sum of the
  -- values of the boxes that are gone.
  pub check_for_point_box_lem :
      (boxes : List (PointBox R))
      → check_for_point_box fl old new boxes
        ≡ (remaining (collects fl old new) boxes, gain (collects fl old new) boxes)
  unfolding check_for_point_box
  check_for_point_box_lem boxes =
      check_loop_lem [] boxes (pos 0)
      ∙ ap (λ (total : ℤ). (remaining (collects fl old new) boxes, total))
          (zero_+ℤ (gain (collects fl old new) boxes))
