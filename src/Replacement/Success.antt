-- ===== src/Replacement/Success.antt =====
-- A replacement that reports success has put the output in place.
use encodr.Prelude.{
  ℕ, ◌≡◌, refl, ◌∙◌, ap, subst, Bool, true, false, not, ◌&&◌, Option, none, some, List,
  if◌then◌else◌, str_eq, Bool-cases, inl, inr,
}
use encodr.Config.{OutputContainer}
use encodr.Planning.Models.{ReplacePlan}
use encodr.Replacement.Paths.{
  FilePath, path_eq, path_eq_comm, final_path, build_backup_path, alongside_path, final-ne-backup,
}
use encodr.Replacement.FileSystem.{World, Content, exists, rename, unlink}
use encodr.Replacement.Moves.{
  Details, Attempt, returned, raised, ReplacementError, ReplacementResult, succeeded, failed, Move,
  moved, move_failed, move_generated_output, temporary_replaced_backup_path,
}
use encodr.Replacement.Steps.{rename_other, unlink_other, move_done, delete_temp_other}
use encodr.Replacement.Apart.{
  some_inj, not-not-true, Apart, Aside, temporary-Aside, temporary_free, taken-ne-free,
}
use encodr.Replacement.Service.{
  create_new_backup, finish, after_delete, settle, after_move, place, after_backup, back_up,
  after_aside, move_aside, proceed, refusal, replace_in_place, place_alongside_original,
  after_placing, handle_error, handle_drawn, place_verified_output,
}

-- A result names a path at which the output stands.
abbrev PlacedAt : Content → Attempt → World → Type 0
PlacedAt output (returned r) w =
    (p : FilePath) × (r.final_output_path ≡ some p) × (w.files p ≡ some output)
PlacedAt output (raised error) w = Unit

record Placed (output : Content) (r : Attempt × World) : Type 0 where
  at : PlacedAt output r.0 r.1

Placed-if :
    (b : Bool) {output : Content} {x y : Attempt × World}
    → Placed output x
    → Placed output y
    → Placed output (if b then x else y)
Placed-if true hx hy = hx
Placed-if false hx hy = hy

-- The same of a whole run, if it succeeds.
record PlacedRun (output : Content) (o : Option (Attempt × World)) : Type 0 where
  each : (a : Attempt × World) → o ≡ some a → Placed output a

PlacedRun-if :
    (b : Bool) {output : Content} {x y : Option (Attempt × World)}
    → PlacedRun output x
    → PlacedRun output y
    → PlacedRun output (if b then x else y)
PlacedRun-if true hx hy = hx
PlacedRun-if false hx hy = hy

PlacedRun-some :
    {output : Content} (a : Attempt × World) → Placed output a → PlacedRun output (some a)
PlacedRun-some {output} a h = record { each = λ b e. subst (Placed output) (some_inj e) h }

module _ (source staged : FilePath) (target : OutputContainer) (plan : ReplacePlan)
    (output : Content) where
  finish-Placed :
      (replaced : Option FilePath) (d : Details) (saved : Option FilePath) (deleted : Bool)
      (w : World)
      → Aside source target replaced
      → w.files (final_path source target) ≡ some output
      → Placed output (finish source staged target plan replaced d saved deleted w)
  unfolding finish
  finish-Placed replaced d saved deleted w aside f = record {
    at = (
      final_path source target,
      refl,
      delete_temp_other source staged (final_path source target) (build_backup_path source) replaced
            (final_path source target) d w (λ t e. (aside t e).from_final)
          ∙ f,
    );
  }

  after_delete-Placed :
      (replaced : Option FilePath) (d : Details) (e : Option ℕ) (w : World)
      → Aside source target replaced
      → w.files (final_path source target) ≡ some output
      → Placed output (after_delete source staged target plan replaced d (e, w))
  unfolding after_delete
  after_delete-Placed replaced d none w aside f = finish-Placed replaced d none true w aside f
  after_delete-Placed replaced d (some e) w aside f = record {
    at = (
      final_path source target,
      refl,
      delete_temp_other source staged (final_path source target) (build_backup_path source) replaced
            (final_path source target) d w (λ t e. (aside t e).from_final)
          ∙ f,
    );
  }

  settle-Placed :
      (replaced : Option FilePath) (d : Details) (w : World)
      → Aside source target replaced
      → w.files (final_path source target) ≡ some output
      → Placed output (settle source staged target plan replaced d w)
  unfolding settle
  settle-Placed replaced d w aside f =
      let call = unlink (build_backup_path source) w in
      Placed-if
        (create_new_backup source staged target plan
          && plan.delete_replaced_source
          && exists w (build_backup_path source))
        (after_delete-Placed replaced d call.0 call.1 aside (
          unlink_other (build_backup_path source) (final_path source target) w (
            path_eq_comm (build_backup_path source) (final_path source target)
            ∙ final-ne-backup source target)
          ∙ f))
        (finish-Placed replaced d (some (build_backup_path source)) false w aside f)

  after_move-Placed :
      (replaced : Option FilePath) (m : Move) (w : World)
      → Aside source target replaced
      → ((d : Details) → m ≡ moved d → w.files (final_path source target) ≡ some output)
      → Placed output (after_move source staged target plan replaced (m, w))
  unfolding after_move
  after_move-Placed replaced (moved d) w aside f = settle-Placed replaced _ w aside (f d refl)
  after_move-Placed replaced (move_failed e) w aside f = record { at = tt }

  module _ (apart : Apart source target staged) where
    place-Placed :
        (replaced : Option FilePath) (w : World)
        → Aside source target replaced
        → w.files staged ≡ some output
        → Placed output (place source staged target plan replaced w)
    unfolding place
    place-Placed replaced w aside o =
        let move = move_generated_output staged (final_path source target) w in
        after_move-Placed replaced move.0 move.1 aside
          (λ d e. move_done staged (final_path source target) w apart.from_final e ∙ o)

    after_backup-Placed :
        (replaced : Option FilePath) (e : Option ℕ) (w : World)
        → Aside source target replaced
        → w.files staged ≡ some output
        → Placed output (after_backup source staged target plan replaced (e, w))
    unfolding after_backup
    after_backup-Placed replaced none w aside o = place-Placed replaced w aside o
    after_backup-Placed replaced (some e) w aside o = record { at = tt }

    back_up-Placed :
        (replaced : Option FilePath) (w : World)
        → Aside source target replaced
        → w.files staged ≡ some output
        → Placed output (back_up source staged target plan replaced w)
    unfolding back_up
    back_up-Placed replaced w aside o =
        let call = rename source (build_backup_path source) w in
        Placed-if (create_new_backup source staged target plan)
          (after_backup-Placed replaced call.0 call.1 aside (
            rename_other source (build_backup_path source) staged w
              (path_eq_comm source staged ∙ apart.from_source)
              (path_eq_comm (build_backup_path source) staged ∙ apart.from_backup)
            ∙ o))
          (place-Placed replaced w aside o)

    after_aside-Placed :
        (t : FilePath) (e : Option ℕ) (w : World)
        → Apart source target t
        → w.files staged ≡ some output
        → Placed output (after_aside source staged target plan t (e, w))
    unfolding after_aside
    after_aside-Placed t none w away o =
        back_up-Placed (some t) w (λ t' e. subst (Apart source target) (some_inj e) away) o
    after_aside-Placed t (some e) w away o = record { at = tt }

    move_aside-Placed :
        (drawn : Option FilePath) (w : World)
        → Aside source target drawn
        → w.files staged ≡ some output
        → ((t : FilePath) → drawn ≡ some t → path_eq t staged ≡ false)
        → PlacedRun output (move_aside source staged target plan drawn w)
    unfolding move_aside
    move_aside-Placed none w away o n = record { each = λ a e. cc }
    move_aside-Placed (some t) w away o n =
        let call = rename (build_backup_path source) t w in
        PlacedRun-some _ (
          after_aside-Placed t call.0 call.1 (away t refl) (
            rename_other (build_backup_path source) t staged w
              (path_eq_comm (build_backup_path source) staged ∙ apart.from_backup) (n t refl)
            ∙ o))

    proceed-Placed :
        (refused : Option ReplacementError) (tokens : List (List ℕ)) (w : World)
        → w.files staged ≡ some output
        → PlacedRun output (proceed source staged target plan refused tokens w)
    unfolding proceed
    proceed-Placed (some error) tokens w o = PlacedRun-some (raised error, w) (record { at = tt })
    proceed-Placed none tokens w o =
        let drawn = temporary_replaced_backup_path tokens (build_backup_path source) w in
        PlacedRun-if
          (exists w (build_backup_path source)
            && str_eq plan.existing_backup_strategy "replace_backup")
          (move_aside-Placed drawn w (λ t e. temporary-Aside source target tokens w t e) o
            (λ t e.
              taken-ne-free w staged t o (temporary_free (build_backup_path source) tokens w t e)))
          (PlacedRun-some _ (back_up-Placed none w (λ t e. cc) o))

    after_placing-Placed :
        (m : Move) (w : World)
        → ((d : Details) → m ≡ moved d → w.files (alongside_path source target) ≡ some output)
        → Placed output (after_placing source staged target plan (m, w))
    unfolding after_placing
    after_placing-Placed (moved d) w f = record {
      at = (alongside_path source target, refl, f d refl);
    }
    after_placing-Placed (move_failed e) w f = record { at = tt }

    place_alongside-Placed :
        (w : World)
        → w.files staged ≡ some output
        → Placed output (place_alongside_original source staged target plan w)
    unfolding place_alongside_original
    place_alongside-Placed w o = elim (Bool-cases (exists w (alongside_path source target))) [
      | inl e ↦ rw e (record { at = tt })
      | inr e ↦
          let move = move_generated_output staged (alongside_path source target) w in
          let apart_from_output =
            path_eq_comm staged (alongside_path source target)
            ∙ taken-ne-free w staged (alongside_path source target) o (not-not-true _ (ap not e)) in
          rw e (
            after_placing-Placed move.0 move.1
              (λ d m. move_done staged (alongside_path source target) w apart_from_output m ∙ o))
    ]

    -- A result that reports success names a path at which the output stands.
    record Reported (o : Option (ReplacementResult × World)) : Type 0 where
      names :
          (r : ReplacementResult) (w : World)
          → o ≡ some (r, w)
          → r.status ≡ succeeded
          → (p : FilePath) × (r.final_output_path ≡ some p) × (w.files p ≡ some output)

    Reported-if :
        (b : Bool) {x y : Option (ReplacementResult × World)}
        → Reported x
        → Reported y
        → Reported (if b then x else y)
    Reported-if true hx hy = hx
    Reported-if false hx hy = hy

    Reported-failed : (p : ReplacementResult × World) → p.0.status ≡ failed → Reported (some p)
    Reported-failed p status = record { names = λ r w e done. cc (some_inj e, status, done) }

    handle_error-Reported :
        (a : Attempt × World)
        → Placed output a
        → Reported (some (handle_error source staged target plan a))
    unfolding handle_error
    handle_error-Reported (returned result, w) h = record {
      names = λ r w' e done.
          subst
            (λ (q : ReplacementResult × World).
              (p : FilePath) × (q.0.final_output_path ≡ some p) × (q.1.files p ≡ some output))
            (some_inj e) h.at;
    }
    handle_error-Reported (raised error, w) h = record {
      names = λ r w' e done. cc (some_inj e, done);
    }

    handle_drawn-Reported :
        (o : Option (Attempt × World))
        → PlacedRun output o
        → Reported (handle_drawn source staged target plan o)
    unfolding handle_drawn
    handle_drawn-Reported none h = record { names = λ r w' e done. cc }
    handle_drawn-Reported (some a) h = handle_error-Reported a (h.each a refl)

    -- Whatever system calls fail: if the result reports success, the staged output, which is assumed
    -- to be at none of the source, backup and final paths, stands at the path that the result names.
    pub place_verified_output-succeeds :
        (tokens : List (List ℕ)) (w : World) {r : ReplacementResult} {w' : World}
        → w.files staged ≡ some output
        → place_verified_output source staged target plan tokens w ≡ some (r, w')
        → r.status ≡ succeeded
        → (p : FilePath) × (r.final_output_path ≡ some p) × (w'.files p ≡ some output)
    unfolding place_verified_output replace_in_place
    place_verified_output-succeeds tokens w {r} {w'} o h done =
        let reported = Reported-if (not (exists w staged)) (Reported-failed (_, w) refl) (
          Reported-if plan.in_place
            (handle_drawn-Reported
              (proceed source staged target plan (refusal source staged target plan w) tokens w)
              (proceed-Placed (refusal source staged target plan w) tokens w o))
            (handle_error-Reported (place_alongside_original source staged target plan w)
              (place_alongside-Placed w o))) in
        reported.names r w' h done
