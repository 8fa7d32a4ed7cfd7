-- ===== src/Replacement/Steps.antt =====
-- What each step of a replacement does to a path.
use encodr.Prelude.{◌≡◌, refl, false, Option, none, some, arith, is_none}
use encodr.Replacement.Paths.{FilePath, path_eq, path_eq_refl}
use encodr.Replacement.FileSystem.{World, Content, rename, unlink, copyfile}
use encodr.Replacement.Moves.{
  Details, moved, move_generated_output, restore_replaced_backup, delete_replaced_backup_temp,
}

-- A path that a call does not name keeps its contents.
pub rename_other :
    (p q x : FilePath) (w : World)
    → path_eq p x ≡ false
    → path_eq q x ≡ false
    → (rename p q w).1.files x ≡ w.files x
unfolding rename
rename_other p q x w hp hq = ground arith

pub unlink_other :
    (p x : FilePath) (w : World) → path_eq p x ≡ false → (unlink p w).1.files x ≡ w.files x
unfolding unlink
unlink_other p x w hp = ground arith

pub copyfile_other :
    (p q x : FilePath) (w : World) → path_eq q x ≡ false → (copyfile p q w).1.files x ≡ w.files x
unfolding copyfile
copyfile_other p q x w hq = ground arith

-- A call that fails, but a copy, changes nothing.
pub rename_failed :
    (p q x : FilePath) (w : World)
    → is_none (rename p q w).0 ≡ false
    → (rename p q w).1.files x ≡ w.files x
unfolding rename
rename_failed p q x w h = ground arith

pub unlink_failed :
    (p x : FilePath) (w : World)
    → is_none (unlink p w).0 ≡ false
    → (unlink p w).1.files x ≡ w.files x
unfolding unlink
unlink_failed p x w h = ground arith

-- A rename that is done moves the contents.
pub rename_done :
    (p q : FilePath) (w : World) → (rename p q w).0 ≡ none → (rename p q w).1.files q ≡ w.files p
unfolding rename
rename_done p q w h = ground (arith, path_eq_refl q)

pub copyfile_done :
    (p q : FilePath) (w : World)
    → (copyfile p q w).0 ≡ none
    → (copyfile p q w).1.files q ≡ w.files p
unfolding copyfile
copyfile_done p q w h = ground (arith, path_eq_refl q)

-- The move of the output touches no path but the staged one and the final one.
pub move_other :
    (staged final x : FilePath) (w : World)
    → path_eq staged x ≡ false
    → path_eq final x ≡ false
    → (move_generated_output staged final w).1.files x ≡ w.files x
unfolding move_generated_output
move_other staged final x w hs hf =
    let w1 = (rename staged final w).1 in
    let w2 = (copyfile staged final w1).1 in
    ground (
      arith,
      rename_other staged final x w,
      copyfile_other staged final x w1,
      unlink_other staged x w2,
    )

-- The output that was moved is the staged one.
pub move_done :
    (staged final : FilePath) (w : World) {d : Details}
    → path_eq staged final ≡ false
    → (move_generated_output staged final w).0 ≡ moved d
    → (move_generated_output staged final w).1.files final ≡ w.files staged
unfolding move_generated_output
move_done staged final w h m =
    let w1 = (rename staged final w).1 in
    let w2 = (copyfile staged final w1).1 in
    ground (
      arith,
      rename_done staged final w,
      rename_failed staged final staged w,
      copyfile_done staged final w1,
      unlink_other staged final w2,
    )

-- The restoring of an older backup leaves alone every path but its two, and a backup that is there.
pub restore_other :
    (replaced : Option FilePath) (backup x : FilePath) (d : Details) (w : World)
    → path_eq backup x ≡ false
    → ((t : FilePath) → replaced ≡ some t → path_eq t x ≡ false)
    → (restore_replaced_backup replaced backup d w).1.files x ≡ w.files x
unfolding restore_replaced_backup
restore_other none backup x d w hb ht = refl
restore_other (some t) backup x d w hb ht = ground (arith, rename_other t backup x w, ht t refl)

pub restore_backup :
    (replaced : Option FilePath) (backup : FilePath) (d : Details) (w : World) {c : Content}
    → w.files backup ≡ some c
    → (restore_replaced_backup replaced backup d w).1.files backup ≡ some c
unfolding restore_replaced_backup
restore_backup none backup d w h = h
restore_backup (some t) backup d w h = ground arith

pub delete_temp_other :
    (source staged final backup : FilePath) (replaced : Option FilePath) (x : FilePath)
    (d : Details) (w : World)
    → ((t : FilePath) → replaced ≡ some t → path_eq t x ≡ false)
    → (delete_replaced_backup_temp source staged final backup replaced d w).1.files x ≡ w.files x
unfolding delete_replaced_backup_temp
delete_temp_other source staged final backup none x d w ht = refl
delete_temp_other source staged final backup (some t) x d w ht =
    ground (arith, unlink_other t x w, ht t refl)
