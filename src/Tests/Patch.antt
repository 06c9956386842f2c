-- ===== src/Tests/Patch.antt =====
-- Patches of a small file, and the theorems at them.
use roboz.Prelude.{◌≡◌, refl, ◌⊎◌, true, ok}
use roboz.Prelude.Text.{Text, codes}
use roboz.Patch.{count, replace, File, perform_replace}
use roboz.Patch.Perform.{Refused, Applied, perform_replace-Applied}

-- The world is the text of the file.
abbrev file : File Text
file = record {
  make_parent = λ w. ok w;
  read_text = λ w. ok w;
  write_text = λ text w. (ok tt, text);
}

overlapping : count (codes "aa") (codes "aaaaa") ≡ 2
unfolding count
overlapping = refl

replaced : replace (codes "aa") (codes "b") (codes "aaaaa-aa") ≡ codes "bba-b"
unfolding replace
replaced = refl

perform_replace-Applied_example :
    Refused file
      (perform_replace file (codes "cat") (codes "dog") true (codes "cat, cats"))
      (codes "cat, cats")
    ⊎ Applied file
        (codes "cat")
        (codes "dog")
        (codes "cat, cats")
        true
        (perform_replace file (codes "cat") (codes "dog") true (codes "cat, cats"))
        (codes "cat, cats")
perform_replace-Applied_example =
    perform_replace-Applied file 99 (codes "at") (codes "dog") (codes "cat, cats") true
      (codes "cat, cats") refl
