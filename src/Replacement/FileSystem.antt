-- ===== src/Replacement/FileSystem.antt =====
-- The file system that packages/core/encodr_core/replacement/service.py works on: the contents at each
-- path, and how the next system calls end, which the environment chooses.
use encodr.Prelude.{ℕ, Bool, not, Option, none, some, List, [], ◌∷◌, if◌then◌else◌, take, is_none}
use encodr.Replacement.Paths.{FilePath, path_eq}

abbrev pub Content : Type 0
Content = List ℕ

-- A call is done, fails with an error number before any effect, or (a copy) fails after some bytes.
pub data Outcome : Type 0 where
  done : Outcome
  failed : ℕ → Outcome
  failed_after : ℕ → ℕ → Outcome

pub record World : Type 0 where
  pub files : FilePath → Option Content
  pub outcomes : List Outcome

-- Linux error numbers.
abbrev pub eperm : ℕ
eperm = 1

abbrev pub enoent : ℕ
enoent = 2

abbrev pub eacces : ℕ
eacces = 13

abbrev pub exdev : ℕ
exdev = 18

abbrev pub update :
    (FilePath → Option Content) → FilePath → Option Content → FilePath → Option Content
update files p content q = if path_eq p q then content else files q

-- `path.exists()`
abbrev pub exists : World → FilePath → Bool
exists w p = not (is_none (w.files p))

-- Where no outcome is given, the call is done.
abbrev pub next_outcome : List Outcome → Outcome
next_outcome [] = done
next_outcome (o ∷ os) = o

abbrev pub later_outcomes : List Outcome → List Outcome
later_outcomes [] = []
later_outcomes (o ∷ os) = os

-- A call returns the error number of its `OSError`, if it raises one.
abbrev pub Call : Type 0
Call = Option ℕ × World

abbrev moved_file : FilePath → FilePath → Option Content → World → Call
moved_file p q none w = (some enoent, w)
moved_file p q (some content) w =
    (none, record w { files = update (update w.files p none) q (some content) })

abbrev rename_with : Outcome → FilePath → FilePath → World → Call
rename_with done p q w = moved_file p q (w.files p) w
rename_with (failed errno) p q w = (some errno, w)
rename_with (failed_after n errno) p q w = (some errno, w)

-- `p.rename(q)` and `p.replace(q)`: on POSIX both overwrite the target.
unfoldable pub rename : FilePath → FilePath → World → Call
rename p q w =
    rename_with (next_outcome w.outcomes) p q (record w { outcomes = later_outcomes w.outcomes })

abbrev removed_file : FilePath → Option Content → World → Call
removed_file p none w = (some enoent, w)
removed_file p (some content) w = (none, record w { files = update w.files p none })

abbrev unlink_with : Outcome → FilePath → World → Call
unlink_with done p w = removed_file p (w.files p) w
unlink_with (failed errno) p w = (some errno, w)
unlink_with (failed_after n errno) p w = (some errno, w)

-- `p.unlink()`
unfoldable pub unlink : FilePath → World → Call
unlink p w =
    unlink_with (next_outcome w.outcomes) p (record w { outcomes = later_outcomes w.outcomes })

abbrev copied_file : FilePath → Option Content → World → Call
copied_file q none w = (some enoent, w)
copied_file q (some content) w = (none, record w { files = update w.files q (some content) })

-- A copy that fails half-way leaves the first bytes at its target.
abbrev partly_copied : ℕ → ℕ → FilePath → Option Content → World → Call
partly_copied n errno q none w = (some enoent, w)
partly_copied n errno q (some content) w =
    (some errno, record w { files = update w.files q (some (take n content)) })

abbrev copy_with : Outcome → FilePath → FilePath → World → Call
copy_with done p q w = copied_file q (w.files p) w
copy_with (failed errno) p q w = (some errno, w)
copy_with (failed_after n errno) p q w = partly_copied n errno q (w.files p) w

-- `shutil.copyfile(p, q)`
unfoldable pub copyfile : FilePath → FilePath → World → Call
copyfile p q w =
    copy_with (next_outcome w.outcomes) p q (record w { outcomes = later_outcomes w.outcomes })
