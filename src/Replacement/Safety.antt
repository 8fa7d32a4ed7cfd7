-- ===== src/Replacement/Safety.antt =====
-- No original is lost, whatever fails.
use encodr.Prelude.{
  ℕ, ◌≡◌, refl, ◌∙◌, ap, subst, Bool, true, false, not, ◌&&◌, Option, none, some, List,
  if◌then◌else◌, str_eq, Bool-cases, inl, inr, ◌⊎◌, is_none,
}
use encodr.Config.{OutputContainer}
use encodr.Planning.Models.{ReplacePlan}
use encodr.Replacement.Paths.{
  FilePath, path_eq, path_eq_comm, final_path, build_backup_path, alongside_path, source-ne-backup,
  final-ne-backup,
}
use encodr.Replacement.FileSystem.{World, Content, exists, rename}
use encodr.Replacement.Moves.{
  failure_details, Attempt, returned, raised, ReplacementError, ReplacementResult, Move, moved,
  move_failed, move_generated_output, restore_replaced_backup, temporary_replaced_backup_path,
}
use encodr.Replacement.Steps.{rename_other, rename_failed, rename_done, move_other, move_done}
use encodr.Replacement.Apart.{
  some_inj, not-not-true, none_of_is_none, Apart, Aside, temporary-Aside, temporary_free,
  taken-ne-free,
}
use encodr.Replacement.Service.{
  create_new_backup, place, after_backup, back_up, after_aside, move_aside, proceed, refusal,
  replace_in_place, place_alongside_original, after_placing, handle_error, handle_drawn,
  place_verified_output,
}
use encodr.Replacement.Kept.{KeptAt, Kept, after_move-Kept, restore-Held, Kept_of_Held}

module _ (source staged : FilePath) (target : OutputContainer) (plan : ReplacePlan)
    (original output : Content) where
  module _ (apart : Apart source target staged) where
    place-Kept :
        (replaced : Option FilePath) (w : World)
        → Aside source target replaced
        → w.files (build_backup_path source) ≡ some original
        → w.files staged ≡ some output
        → Kept source staged target plan original output
            (place source staged target plan replaced w)
    unfolding place
    place-Kept replaced w aside b s =
        let move = move_generated_output staged (final_path source target) w in
        after_move-Kept source staged target plan original output replaced move.0 move.1 aside
          (move_other staged (final_path source target) (build_backup_path source) w
              apart.from_backup (final-ne-backup source target)
            ∙ b)
          (λ d e. move_done staged (final_path source target) w apart.from_final e ∙ s)

    after_backup-Kept :
        (replaced : Option FilePath) (e : Option ℕ) (w : World)
        → Aside source target replaced
        → (is_none e ≡ true → w.files (build_backup_path source) ≡ some original)
        → (is_none e ≡ false → w.files source ≡ some original)
        → w.files staged ≡ some output
        → Kept source staged target plan original output
            (after_backup source staged target plan replaced (e, w))
    unfolding after_backup
    after_backup-Kept replaced none w aside b s o = place-Kept replaced w aside (b refl) o
    after_backup-Kept replaced (some e) w aside b s o =
        let d =
          failure_details "move_source_to_backup" e source staged (some (final_path source target))
            (some (build_backup_path source)) w in
        Kept_of_Held source staged target plan original output false
          (restore_replaced_backup replaced (build_backup_path source) d w).1
          (restore-Held source staged target plan original output replaced d w aside (inl (s refl)))

    back_up-Kept :
        (replaced : Option FilePath) (w : World)
        → create_new_backup source staged target plan ≡ true
        → Aside source target replaced
        → w.files source ≡ some original
        → w.files staged ≡ some output
        → Kept source staged target plan original output
            (back_up source staged target plan replaced w)
    unfolding back_up
    back_up-Kept replaced w create aside s o =
        let call = rename source (build_backup_path source) w in
        rw create (
          after_backup-Kept replaced call.0 call.1 aside
            (λ e. rename_done source (build_backup_path source) w (none_of_is_none call.0 e) ∙ s)
            (λ e. rename_failed source (build_backup_path source) source w e ∙ s)
            (rename_other source (build_backup_path source) staged w
                (path_eq_comm source staged ∙ apart.from_source)
                (path_eq_comm (build_backup_path source) staged ∙ apart.from_backup)
              ∙ o))

    -- What a run keeps, if its tokens sufficed.
    abbrev KeptIn : Option (Attempt × World) → Type 0
    KeptIn none = Unit
    KeptIn (some r) = Kept source staged target plan original output r

    record KeptRun (o : Option (Attempt × World)) : Type 0 where
      within : KeptIn o

    KeptRun-if :
        (b : Bool) {x y : Option (Attempt × World)}
        → KeptRun x
        → KeptRun y
        → KeptRun (if b then x else y)
    KeptRun-if true hx hy = hx
    KeptRun-if false hx hy = hy

    after_aside-Kept :
        (t : FilePath) (e : Option ℕ) (w : World)
        → create_new_backup source staged target plan ≡ true
        → Apart source target t
        → w.files source ≡ some original
        → (is_none e ≡ true → w.files staged ≡ some output)
        → Kept source staged target plan original output
            (after_aside source staged target plan t (e, w))
    unfolding after_aside
    after_aside-Kept t none w create away s o =
        back_up-Kept (some t) w create (λ t' e. subst (Apart source target) (some_inj e) away) s
          (o refl)
    after_aside-Kept t (some e) w create away s o = inl s

    move_aside-Kept :
        (drawn : Option FilePath) (w : World)
        → create_new_backup source staged target plan ≡ true
        → Aside source target drawn
        → w.files source ≡ some original
        → w.files staged ≡ some output
        → ((t : FilePath) → drawn ≡ some t → path_eq t staged ≡ false)
        → KeptRun (move_aside source staged target plan drawn w)
    unfolding move_aside
    move_aside-Kept none w create away s o n = record { within = tt }
    move_aside-Kept (some t) w create away s o n =
        let backup = build_backup_path source in
        let call = rename backup t w in
        record {
          within =
              after_aside-Kept t call.0 call.1 create (away t refl)
                (rename_other backup t source w
                    (path_eq_comm backup source ∙ source-ne-backup source) (away t refl).from_source
                  ∙ s)
                (λ e.
                  rename_other backup t staged w (path_eq_comm backup staged ∙ apart.from_backup)
                    (n t refl)
                  ∙ o);
        }

    proceed-Kept :
        (refused : Option ReplacementError) (tokens : List (List ℕ)) (w : World)
        → create_new_backup source staged target plan ≡ true
        → w.files source ≡ some original
        → w.files staged ≡ some output
        → KeptRun (proceed source staged target plan refused tokens w)
    unfolding proceed
    proceed-Kept (some error) tokens w create s o = record { within = inl s }
    proceed-Kept none tokens w create s o =
        let drawn = temporary_replaced_backup_path tokens (build_backup_path source) w in
        KeptRun-if
          (exists w (build_backup_path source)
            && str_eq plan.existing_backup_strategy "replace_backup")
          (move_aside-Kept drawn w create (λ t e. temporary-Aside source target tokens w t e) s o
            (λ t e.
              taken-ne-free w staged t o (temporary_free (build_backup_path source) tokens w t e)))
          (record { within = back_up-Kept none w create (λ t e. cc) s o })

    after_placing-kept :
        (m : Move) (w : World)
        → w.files source ≡ some original
        → (after_placing source staged target plan (m, w)).1.files source ≡ some original
    unfolding after_placing
    after_placing-kept (moved d) w s = s
    after_placing-kept (move_failed e) w s = s

    place_alongside-Kept :
        (w : World)
        → w.files source ≡ some original
        → Kept source staged target plan original output
            (place_alongside_original source staged target plan w)
    unfolding place_alongside_original
    place_alongside-Kept w s = elim (Bool-cases (exists w (alongside_path source target))) [
      | inl e ↦ rw e (inl s)
      | inr e ↦
          let move = move_generated_output staged (alongside_path source target) w in
          rw e (
            inl (
              after_placing-kept move.0 move.1 (
                move_other staged (alongside_path source target) source w apart.from_source (
                  taken-ne-free w source (alongside_path source target) s
                    (not-not-true _ (ap not e)))
                ∙ s)))
    ]

    handle_error-Kept :
        (r : Attempt × World)
        → Kept source staged target plan original output r
        → KeptAt source staged target plan original output
            (handle_error source staged target plan r).0.deleted_original_source
            (handle_error source staged target plan r).1
    unfolding handle_error
    handle_error-Kept (returned result, w) k = k
    handle_error-Kept (raised error, w) k = k

    handle_drawn-Kept :
        (o : Option (Attempt × World)) {r : ReplacementResult} {w' : World}
        → KeptRun o
        → handle_drawn source staged target plan o ≡ some (r, w')
        → KeptAt source staged target plan original output r.deleted_original_source w'
    unfolding handle_drawn
    handle_drawn-Kept none k h = cc
    handle_drawn-Kept (some a) k h =
        subst
          (λ (p : ReplacementResult × World).
            KeptAt source staged target plan original output p.0.deleted_original_source p.1)
          (some_inj h) (handle_error-Kept a k.within)

    -- What a run keeps, if it ends with a result.
    record KeptResult (o : Option (ReplacementResult × World)) : Type 0 where
      within :
          (r : ReplacementResult) (w : World)
          → o ≡ some (r, w)
          → KeptAt source staged target plan original output r.deleted_original_source w

    KeptResult-if :
        (b : Bool) {x y : Option (ReplacementResult × World)}
        → KeptResult x
        → KeptResult y
        → KeptResult (if b then x else y)
    KeptResult-if true hx hy = hx
    KeptResult-if false hx hy = hy

    KeptResult-some :
        (p : ReplacementResult × World)
        → KeptAt source staged target plan original output p.0.deleted_original_source p.1
        → KeptResult (some p)
    KeptResult-some p k = record {
      within = λ r w h.
          subst
            (λ (q : ReplacementResult × World).
              KeptAt source staged target plan original output q.0.deleted_original_source q.1)
            (some_inj h) k;
    }

    -- Whatever system calls fail, and whenever: when the replacement returns, a source file that was
    -- there is at its own path or at the backup path; or the result reports its deletion, and the
    -- verified output stands at the final path. It is assumed that the staged output is there, at none
    -- of the source, backup and final paths, and that a new backup is to be made.
    pub place_verified_output-keeps :
        (tokens : List (List ℕ)) (w : World) {r : ReplacementResult} {w' : World}
        → str_eq plan.existing_backup_strategy "keep_existing_backup" ≡ false
        → w.files source ≡ some original
        → w.files staged ≡ some output
        → place_verified_output source staged target plan tokens w ≡ some (r, w')
        → (w'.files source ≡ some original)
          ⊎ (w'.files (build_backup_path source) ≡ some original)
          ⊎ ((r.deleted_original_source ≡ true)
              × (w'.files (final_path source target) ≡ some output))
    unfolding place_verified_output replace_in_place
    place_verified_output-keeps tokens w {r} {w'} strategy s o h =
        let kept = KeptResult-if (not (exists w staged)) (KeptResult-some (_, w) (inl s)) (
          KeptResult-if plan.in_place
            (record {
              within = λ r w' e.
                  handle_drawn-Kept
                    (proceed source staged target plan (refusal source staged target plan w) tokens
                      w)
                    (proceed-Kept (refusal source staged target plan w) tokens w (ap not strategy) s
                      o)
                    e;
            })
            (KeptResult-some
              (handle_error source staged target plan
                (place_alongside_original source staged target plan w))
              (handle_error-Kept (place_alongside_original source staged target plan w)
                (place_alongside-Kept w s)))) in
        kept.within r w' h
