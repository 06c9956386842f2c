-- ===== src/Cli/History.antt =====
-- execute.py: the bounded histories of a command run, and the texts of its reports.
use roboz.Prelude.{
  ℕ, zero, suc, ◌+◌, ◌-◌, ◌≤◌, ◌<◌, ◌≡◌, Option, none, some, [], ◌∷◌, ◌++◌, arith, Bool-cases, leb,
  ◌==◌, inl, inr, length, drop, length-append, length-drop, if◌then◌else◌,
}
use roboz.Prelude.Int.{ℤ, pos, negsuc, sub_ℕ, minus_ℕ, leb_ℤ}
use roboz.Truncation.{light_max_chars}
use roboz.Prelude.Text.{Text, codes, strip_right, is_space}

abbrev pub max_command_output_chars : ℕ
max_command_output_chars = 100000

abbrev pub max_permission_history_chars : ℕ
max_permission_history_chars = 20000

abbrev pub history_truncation_marker : Text
history_truncation_marker = codes "[earlier command output omitted]\n"

abbrev pub permission_truncation_marker : Text
permission_truncation_marker = codes "[earlier permission messages omitted]\n"

-- `history[-tail_chars:]`, for a count of any sign. At 0 this is the whole history.
unfoldable pub from_end : ℤ → Text → Text
from_end (pos zero) history = history
from_end (pos (suc n)) history = drop (length history - suc n) history
from_end (negsuc n) history = drop (suc n) history

unfoldable pub bounded_history : Text → ℤ → Text → Text
unfolding from_end
bounded_history history max_chars marker =
    if leb_ℤ (pos (length history)) max_chars
    then history
    else marker ++ from_end (minus_ℕ max_chars (length marker)) history

length-from_end :
    (n : ℕ) (history : Text) → 0 < n → n ≤ length history → length (from_end (pos n) history) ≡ n
unfolding from_end
length-from_end zero history h k = absurd (omega arith)
length-from_end (suc n) history h k = omega (arith, length-drop (length history - suc n) history)

sub_ℕ-of_le : (a b : ℕ) → b ≤ a → sub_ℕ a b ≡ pos (a - b)
sub_ℕ-of_le a b h = ground arith

-- The bound is kept wherever it leaves room for the marker and one more character.
pub length-bounded_history :
    (history : Text) (max_chars : ℕ) (marker : Text)
    → length marker < max_chars
    → length (bounded_history history (pos max_chars) marker) ≤ max_chars
unfolding bounded_history
length-bounded_history history max_chars marker h =
    elim (Bool-cases (leb (length history + 0) (max_chars + 0))) [
      | inl short ↦ rw (short, bounded_history) (ground arith)
      | inr long ↦
          rw (long, bounded_history)
            (rw (sub_ℕ-of_le max_chars (length marker) (omega arith)) (
              rw (length-append marker) (
                rw
                  (length-from_end (max_chars - length marker) history (omega arith) (ground arith))
                  (omega arith))))
    ]

-- `_framed_cli_output` of formatting.py
unfoldable pub framed_cli_output : Text → Text → Text
framed_cli_output command_line body =
    codes "--- begin: "
    ++ (command_line
        ++ (codes " ---\n"
            ++ (strip_right (λ c. c == 10) body
                ++ (codes "\n--- end: " ++ (command_line ++ codes " ---")))))

-- `_with_guard_message` of formatting.py
unfoldable pub with_guard_message : Option Text → Text → Text
with_guard_message none body = body
with_guard_message (some []) body = body
with_guard_message (some (c ∷ message)) body = (c ∷ message) ++ (codes "\n" ++ body)

-- The header of `_final_result`.
unfoldable pub report_header : Text → Text → Text
report_header summary [] = codes "Overall: " ++ (summary ++ codes "\n")
report_header summary (c ∷ permission_history) =
    (codes "Overall: " ++ (summary ++ codes "\n")) ++ ((c ∷ permission_history) ++ codes "\n")

-- The value of `_final_result`.
unfoldable pub final_report : Text → Text → Text → Text
unfolding report_header
final_report history summary permission_history =
    let header = report_header summary permission_history in
    header
    ++ bounded_history (strip_right is_space history) (sub_ℕ light_max_chars (length header))
        history_truncation_marker

length-report_header :
    (summary permission_history : Text)
    → length (report_header summary permission_history)
      ≤ length summary + length permission_history + 11
unfolding report_header
length-report_header summary [] =
    rw (length-append (codes "Overall: "), length-append summary) (omega arith)
length-report_header summary (c ∷ permission_history) =
    rw
      (
        length-append (codes "Overall: " ++ (summary ++ codes "\n")),
        length-append (codes "Overall: "),
        length-append summary,
        length-append (c ∷ permission_history),
      )
      (omega arith)

-- A report keeps within the limit for tool outputs, whatever the history is, if the permission
-- history is within its own limit and the summary is at most 19000 characters long.
pub length-final_report :
    (history summary permission_history : Text)
    → length permission_history ≤ max_permission_history_chars
    → length summary ≤ 19000
    → length (final_report history summary permission_history) ≤ light_max_chars
unfolding final_report
length-final_report history summary permission_history h k =
    let header = report_header summary permission_history in
    rw
      (
        length-append header,
        sub_ℕ-of_le light_max_chars (length header)
            (omega (arith, length-report_header summary permission_history)),
      )
      (omega (
        arith,
        length-report_header summary permission_history,
        length-bounded_history (strip_right is_space history) (light_max_chars - length header)
            history_truncation_marker
            (omega (arith, length-report_header summary permission_history)),
      ))
