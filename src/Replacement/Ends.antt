-- ===== src/Replacement/Ends.antt =====
-- The search for a free path beside the backup ends, and the replacement with it.
use mathlib.Core.List.Memᴰ
use encodr.Prelude.{
  ℕ, ◌≡◌, refl, Bool, true, false, not, ◌&&◌, Option, none, some, List, [], ◌∷◌, Memᴰ,
  if◌then◌else◌, Bool-cases, inl, inr, is_none, str_eq,
}
use encodr.Config.{OutputContainer}
use encodr.Planning.Models.{ReplacePlan}
use encodr.Replacement.Paths.{FilePath, build_backup_path, replacing_path}
use encodr.Replacement.FileSystem.{World, exists}
use encodr.Replacement.Moves.{Attempt, ReplacementError, temporary_replaced_backup_path}
use encodr.Replacement.Service.{
  move_aside, proceed, refusal, replace_in_place, handle_drawn, place_verified_output,
}

record Ends {A : Type 0} (o : Option A) : Type 0 where
  found : is_none o ≡ false

Ends-if : {A : Type 0} (b : Bool) {x y : Option A} → Ends x → Ends y → Ends (if b then x else y)
Ends-if true hx hy = hx
Ends-if false hx hy = hy

-- One free token is enough.
temporary_found :
    (backup : FilePath) (tokens : List (List ℕ)) (w : World) {token : List ℕ}
    → Memᴰ token tokens
    → exists w (replacing_path backup token) ≡ false
    → is_none (temporary_replaced_backup_path tokens backup w) ≡ false
unfolding temporary_replaced_backup_path
temporary_found backup [] w m free = elim m [ ]
temporary_found backup (t ∷ tokens) w m free =
    elim (Bool-cases (not (exists w (replacing_path backup t)))) [
      | inl e ↦ rw e refl
      | inr e ↦ elim (Memᴰ.cases_cons m) [
        | inl same ↦ cc (e, free, same)
        | inr rest ↦ rw e (temporary_found backup tokens w rest free)
      ]
    ]

module _ (source staged : FilePath) (target : OutputContainer) (plan : ReplacePlan) where
  move_aside_ends :
      (drawn : Option FilePath) (w : World)
      → is_none drawn ≡ false
      → is_none (move_aside source staged target plan drawn w) ≡ false
  unfolding move_aside
  move_aside_ends none w h = h
  move_aside_ends (some t) w h = refl

  proceed_ends :
      (refused : Option ReplacementError) (tokens : List (List ℕ)) (w : World)
      → is_none (temporary_replaced_backup_path tokens (build_backup_path source) w) ≡ false
      → is_none (proceed source staged target plan refused tokens w) ≡ false
  unfolding proceed
  proceed_ends (some error) tokens w h = refl
  proceed_ends none tokens w h =
      let ends =
        Ends-if
          (exists w (build_backup_path source)
            && str_eq plan.existing_backup_strategy "replace_backup")
          (record {
            found =
                move_aside_ends (temporary_replaced_backup_path tokens (build_backup_path source) w)
                  w h;
          })
          (record { found = refl }) in
      ends.found

  handle_drawn_ends :
      (o : Option (Attempt × World))
      → is_none o ≡ false
      → is_none (handle_drawn source staged target plan o) ≡ false
  unfolding handle_drawn
  handle_drawn_ends none h = h
  handle_drawn_ends (some a) h = refl

  -- The replacement returns a result as soon as one of the drawn tokens names a free path.
  pub place_verified_output_ends :
      (tokens : List (List ℕ)) (w : World) {token : List ℕ}
      → Memᴰ token tokens
      → exists w (replacing_path (build_backup_path source) token) ≡ false
      → is_none (place_verified_output source staged target plan tokens w) ≡ false
  unfolding place_verified_output replace_in_place
  place_verified_output_ends tokens w m free =
      let ends =
        Ends-if (not (exists w staged)) (record { found = refl })
          (Ends-if plan.in_place
            (record {
              found =
                  handle_drawn_ends
                    (proceed source staged target plan (refusal source staged target plan w) tokens
                      w)
                    (proceed_ends (refusal source staged target plan w) tokens w
                      (temporary_found (build_backup_path source) tokens w m free));
            })
            (record { found = refl })) in
      ends.found
