-- ===== src/Cli/Zsh/Stream.antt =====
-- The loop over the stream of tokens (split_command, run, next_command), and its agreement with
-- the grammar.
use mathlib.Core.Path.{fun_ext}
use roboz.Prelude.{
  ℕ, zero, suc, ◌≤◌, ◌≡◌, refl, ap, ◌∙◌, Bool, true, false, Option, none, some, List, [], ◌∷◌, ◌++◌,
  map, if◌then◌else◌, arith, length, length-append, Result, ok, err, ◌>>=◌, Bool-cases, inl, inr,
}
use roboz.Cli.Contracts.{Token, ctl, ControlOperator, bar}
use roboz.Cli.Sequence.{split_command, next_from, next_command, pipes_into}
use roboz.Cli.Zsh.{
  Word, flag_word, argument_word, path_word, word_token, Command, Pipeline, last, feed, Connector,
  on_success, on_failure, always, connector_operator, Script, command_tokens, pipeline_tokens,
  rest_tokens, script_tokens, runs_after, eval_pipeline, eval_rest, eval_script,
}

-- A list that begins with a control operator, or is empty: what stands behind a command.
pub data IsTail : List Token → Type 0 where
  ended : IsTail []
  operated : (operator : ControlOperator) (tokens : List Token) → IsTail (ctl operator ∷ tokens)

split-words :
    (words : List Word) (tail : List Token)
    → IsTail tail
    → split_command (map word_token words ++ tail) ≡ (map word_token words, tail)
unfolding split_command
split-words [] _ ended = refl
split-words [] _ (operated operator tokens) = refl
split-words (flag_word text ∷ words) tail t = rw (split-words words tail t)
split-words (argument_word text ∷ words) tail t = rw (split-words words tail t)
split-words (path_word text ∷ words) tail t = rw (split-words words tail t)

split-command :
    (c : Command) (tail : List Token)
    → IsTail tail
    → split_command (command_tokens c ++ tail) ≡ (command_tokens c, tail)
unfolding split_command
split-command c tail t = rw (split-words c.words tail t)

next-words :
    (words : List Word) (tail : List Token) (run : Bool) (status : ℕ)
    → next_from run (map word_token words ++ tail) status ≡ next_from run tail status
unfolding next_from
next-words [] tail run status = refl
next-words (flag_word text ∷ words) tail run status = next-words words tail run status
next-words (argument_word text ∷ words) tail run status = next-words words tail run status
next-words (path_word text ∷ words) tail run status = next-words words tail run status

next-command :
    (c : Command) (tail : List Token) (run : Bool) (status : ℕ)
    → next_from run (command_tokens c ++ tail) status ≡ next_from run tail status
unfolding next_from
next-command c tail run status = next-words c.words tail run status

next-bar :
    (tail : List Token) (status : ℕ)
    → next_from false (ctl bar ∷ tail) status ≡ next_from false tail status
unfolding next_from
next-bar tail status = refl

next-bar_enabled :
    (tail : List Token) (status : ℕ) → next_from true (ctl bar ∷ tail) status ≡ (tail, true)
unfolding next_from
next-bar_enabled tail status = refl

next-connector :
    (connector : Connector) (before : Bool) (tail : List Token) (status : ℕ)
    → next_from before (ctl (connector_operator connector) ∷ tail) status
      ≡ (if runs_after connector status then (tail, false) else next_from false tail status)
unfolding next_from
next-connector on_success before tail status = ground arith
next-connector on_failure before tail status = ground arith
next-connector always before tail status = refl

-- A pipeline that is skipped is skipped to its end.
next-pipeline :
    (p : Pipeline) (tail : List Token) (status : ℕ)
    → next_from false (pipeline_tokens p tail) status ≡ next_from false tail status
next-pipeline (last c) tail status = next-command c tail false status
next-pipeline (feed c p) tail status =
    next-command c (ctl bar ∷ pipeline_tokens p tail) false status
    ∙ (next-bar (pipeline_tokens p tail) status ∙ next-pipeline p tail status)

rest-IsTail : (rest : List (Connector × Pipeline)) → IsTail (rest_tokens rest)
rest-IsTail [] = ended
rest-IsTail ((connector, p) ∷ rest) = operated _ _

room :
    (c : Command) (tail : List Token) {fuel : ℕ}
    → length (command_tokens c ++ tail) ≤ suc fuel
    → length tail ≤ fuel
room c tail h = omega (arith, length-append (map word_token c.words) tail)

length-le-pipeline :
    (p : Pipeline) (tail : List Token) → length tail ≤ length (pipeline_tokens p tail)
length-le-pipeline (last c) tail = omega (arith, length-append (map word_token c.words) tail)
length-le-pipeline (feed c p) tail = omega (
  arith,
  length-append (map word_token c.words) (ctl bar ∷ pipeline_tokens p tail),
  length-le-pipeline p tail,
)

module _ {S H : Type 0} where
  -- `if execution.remaining:` go on, else report the status.
  unfoldable pub proceed :
      (List Token → Bool → S → Option (Result H (S × ℕ)))
      → List Token × Bool
      → S × ℕ
      → Option (Result H (S × ℕ))
  proceed continue ([], piped) done = some (ok done)
  proceed continue (token ∷ more, piped) done = continue (token ∷ more) piped done.0

  unfoldable pub follow :
      (S × ℕ → Option (Result H (S × ℕ))) → Result H (S × ℕ) → Option (Result H (S × ℕ))
  follow continue (ok done) = continue done
  follow continue (err halt) = some (err halt)

  follow-bind :
      (continue : S × ℕ → Option (Result H (S × ℕ))) (g : S × ℕ → Result H (S × ℕ))
      (r : Result H (S × ℕ))
      → ((done : S × ℕ) → continue done ≡ some (g done))
      → follow continue r ≡ some (r >>= g)
  unfolding follow
  follow-bind continue g (ok done) h = h done
  follow-bind continue g (err halt) h = refl

  bind_assoc :
      (r : Result H (S × ℕ)) (f g : S × ℕ → Result H (S × ℕ))
      → (r >>= λ done. f done >>= g) ≡ ((r >>= f) >>= g)
  bind_assoc (ok done) f g = refl
  bind_assoc (err halt) f g = refl

  proceed-pipeline :
      (continue : List Token → Bool → S → Option (Result H (S × ℕ))) (p : Pipeline)
      (tail : List Token) (piped : Bool) (done : S × ℕ)
      → proceed continue (pipeline_tokens p tail, piped) done
        ≡ continue (pipeline_tokens p tail) piped done.0
  unfolding proceed
  proceed-pipeline continue (last c) tail piped done = refl
  proceed-pipeline continue (feed c p) tail piped done = refl

pipes_into-rest : (rest : List (Connector × Pipeline)) → pipes_into (rest_tokens rest) ≡ false
unfolding pipes_into
pipes_into-rest [] = refl
pipes_into-rest ((on_success, p) ∷ rest) = refl
pipes_into-rest ((on_failure, p) ∷ rest) = refl
pipes_into-rest ((always, p) ∷ rest) = refl

-- The chain of steps: each runs the first command of the stream, and goes on with the rest.
-- With fuel; `none` means that the fuel ran out.
module _ {S H : Type 0} (run : List Token → Bool → Bool → S → Result H (S × ℕ)) where
  unfoldable pub drive : ℕ → List Token → Bool → S → Option (Result H (S × ℕ))
  drive zero tokens piped s = none
  drive (suc fuel) tokens piped s =
      follow (λ done. proceed (drive fuel) (next_command tokens done.1) done)
        (run (split_command tokens).0 piped (pipes_into (split_command tokens).1) s)

  abbrev Resumes : List (Connector × Pipeline) → Type 0
  Resumes rest =
      (fuel : ℕ) (before : Bool) (done : S × ℕ)
      → length (rest_tokens rest) ≤ fuel
      → proceed (drive fuel) (next_from before (rest_tokens rest) done.1) done
        ≡ some (eval_rest run rest done)

  drive-step :
      (fuel : ℕ) (c : Command) (tail : List Token) (piped : Bool) (s : S)
      → IsTail tail
      → drive (suc fuel) (command_tokens c ++ tail) piped s
        ≡ follow
            (λ done. proceed (drive fuel) (next_from true tail done.1) done)
            (run (command_tokens c) piped (pipes_into tail) s)
  unfolding drive next_command
  drive-step fuel c tail piped s t = rw (split-command c tail t) (
      ap (λ continue. follow continue (run (command_tokens c) piped (pipes_into tail) s))
        (fun_ext
          λ done. ap (λ next. proceed (drive fuel) next done) (next-command c tail true done.1)))

  drive-pipeline :
      (rest : List (Connector × Pipeline)) (resumes : Resumes rest) (fuel : ℕ) (p : Pipeline)
      (piped : Bool) (s : S)
      → length (pipeline_tokens p (rest_tokens rest)) ≤ fuel
      → drive fuel (pipeline_tokens p (rest_tokens rest)) piped s
        ≡ some (eval_pipeline run piped p s >>= eval_rest run rest)
  unfolding pipes_into
  drive-pipeline rest resumes zero (last c) piped s h = absurd (omega arith)
  drive-pipeline rest resumes zero (feed c p) piped s h = absurd (omega arith)
  drive-pipeline rest resumes (suc fuel) (last c) piped s h =
      drive-step fuel c (rest_tokens rest) piped s (rest-IsTail rest)
      ∙ ap
          (λ piping.
            follow (λ done. proceed (drive fuel) (next_from true (rest_tokens rest) done.1) done)
              (run (command_tokens c) piped piping s))
          (pipes_into-rest rest)
      ∙ follow-bind _ (eval_rest run rest) (run (command_tokens c) piped false s)
          (λ done. resumes fuel true done (room c (rest_tokens rest) h))
  drive-pipeline rest resumes (suc fuel) (feed c p) piped s h =
      drive-step fuel c (ctl bar ∷ pipeline_tokens p (rest_tokens rest)) piped s (operated bar _)
      ∙ follow-bind _ (λ done. eval_pipeline run true p done.0 >>= eval_rest run rest)
          (run (command_tokens c) piped true s)
          (λ done.
            ap (λ next. proceed (drive fuel) next done)
              (next-bar_enabled (pipeline_tokens p (rest_tokens rest)) done.1)
            ∙ proceed-pipeline (drive fuel) p (rest_tokens rest) true done
            ∙ drive-pipeline rest resumes fuel p true done.0
                (omega (arith, room c (ctl bar ∷ pipeline_tokens p (rest_tokens rest)) h)))
      ∙ ap some (bind_assoc (run (command_tokens c) piped true s) _ _)

  drive-rest : (rest : List (Connector × Pipeline)) → Resumes rest
  unfolding proceed next_from
  drive-rest [] fuel before done h = refl
  drive-rest ((connector, p) ∷ rest) fuel before done h =
      rw next-connector (elim (Bool-cases (runs_after connector done.1)) [
        | inl runs ↦ rw runs (
            proceed-pipeline (drive fuel) p (rest_tokens rest) false done
            ∙ drive-pipeline rest (drive-rest rest) fuel p false done.0 (omega arith))
        | inr skips ↦ rw skips (
            rw next-pipeline (
              drive-rest rest fuel false done
                (omega (arith, length-le-pipeline p (rest_tokens rest)))))
      ])

-- The chain of steps does what zsh does, for every script: it makes the same calls in the same
-- order, and ends with the same state and status, or at the same command. As much fuel as there are
-- tokens is enough.
pub drive-script :
    {S H : Type 0} (run : List Token → Bool → Bool → S → Result H (S × ℕ)) (script : Script)
    (fuel : ℕ) (s : S)
    → length (script_tokens script) ≤ fuel
    → drive run fuel (script_tokens script) false s ≡ some (eval_script run script s)
drive-script run script fuel s h =
    drive-pipeline run script.rest (drive-rest run script.rest) fuel script.first false s h
