-- ===== src/Compaction/Prefix.antt =====
-- The bootstrap messages that a conversation begins with.
use roboz.Prelude.{
  ◌≤◌, ◌<◌, ◌≡◌, ◌≢◌, refl, ap, true, false, Option, none, some, List, [], ◌∷◌, ◌++◌, All, take,
  arith, length, Bool-cases, inl, inr,
}
use roboz.Compaction.Compactify.{
  MessageKind, auto_load_banner, auto_loaded_skill, compacted_context, interrupted_generation,
  librarian_activity, librarian_routine, startup_context, system_message, user_notification,
  is_bootstrap, Messages, CompactionContext, bootstrap_prefix_len,
}

-- The kinds of message that an agent is set up with.
pub data Bootstrap : Option MessageKind → Type 0 where
  prompt : Bootstrap (some system_message)
  context : Bootstrap (some startup_context)
  banner : Bootstrap (some auto_load_banner)
  skill : Bootstrap (some auto_loaded_skill)

-- The messages given begin the conversation, and another message than a bootstrap one follows.
pub record Split {M : Type 0} (model : Messages M) (messages boot : List M) : Type 0 where
  pub first : M
  pub rest : List M
  pub together : messages ≡ boot ++ first ∷ rest
  pub all_boot : All (λ message. Bootstrap (model.kind message)) boot
  pub no_boot : ¬ Bootstrap (model.kind first)

false≢true : false ≢ true
false≢true e = cc

is_bootstrap-Bootstrap : (kind : Option MessageKind) → is_bootstrap kind ≡ true → Bootstrap kind
unfolding is_bootstrap
is_bootstrap-Bootstrap (some system_message) h = prompt
is_bootstrap-Bootstrap (some startup_context) h = context
is_bootstrap-Bootstrap (some auto_load_banner) h = banner
is_bootstrap-Bootstrap (some auto_loaded_skill) h = skill
is_bootstrap-Bootstrap (some compacted_context) h = absurd (false≢true h)
is_bootstrap-Bootstrap (some interrupted_generation) h = absurd (false≢true h)
is_bootstrap-Bootstrap (some librarian_activity) h = absurd (false≢true h)
is_bootstrap-Bootstrap (some librarian_routine) h = absurd (false≢true h)
is_bootstrap-Bootstrap (some user_notification) h = absurd (false≢true h)
is_bootstrap-Bootstrap none h = absurd (false≢true h)

Bootstrap-is_bootstrap : {kind : Option MessageKind} → Bootstrap kind → is_bootstrap kind ≡ true
unfolding is_bootstrap
Bootstrap-is_bootstrap prompt = refl
Bootstrap-is_bootstrap context = refl
Bootstrap-is_bootstrap banner = refl
Bootstrap-is_bootstrap skill = refl

module _ {M W E : Type 0} (model : Messages M) (ctx : CompactionContext W E) where
  pub bootstrap_prefix_len-Split :
      (messages : List M)
      → bootstrap_prefix_len model ctx messages < length messages
      → Split model messages (take (bootstrap_prefix_len model ctx messages) messages)
  unfolding bootstrap_prefix_len
  bootstrap_prefix_len-Split [] h = absurd (omega arith)
  bootstrap_prefix_len-Split (message ∷ messages) h =
      elim (Bool-cases (is_bootstrap (model.kind message))) [
        | inl is ↦
            let fewer : bootstrap_prefix_len model ctx messages < length messages =
              (let h2 = rw (is, bootstrap_prefix_len) at h in omega arith) in
            let later = bootstrap_prefix_len-Split messages fewer in
            rw (is, bootstrap_prefix_len)
              (record {
                first = later.first;
                rest = later.rest;
                together = ap (λ ms. message ∷ ms) later.together;
                all_boot = (is_bootstrap-Bootstrap (model.kind message) is, later.all_boot);
                no_boot = later.no_boot;
              })
        | inr is_not ↦
            rw (is_not, bootstrap_prefix_len)
              (record {
                first = message;
                rest = messages;
                together = refl;
                all_boot = tt;
                no_boot = λ boot. absurd (ground (arith, Bootstrap-is_bootstrap boot));
              })
      ]

  pub bootstrap_prefix_len-Bootstrap :
      (messages : List M)
      → length messages ≤ bootstrap_prefix_len model ctx messages
      → All (λ message. Bootstrap (model.kind message)) messages
  unfolding bootstrap_prefix_len
  bootstrap_prefix_len-Bootstrap [] h = tt
  bootstrap_prefix_len-Bootstrap (message ∷ messages) h =
      elim (Bool-cases (is_bootstrap (model.kind message))) [
        | inl is ↦ (
          is_bootstrap-Bootstrap (model.kind message) is,
          bootstrap_prefix_len-Bootstrap messages
              (let h2 = rw (is, bootstrap_prefix_len) at h in omega arith),
        )
        | inr is_not ↦ absurd (let h2 = rw (is_not, bootstrap_prefix_len) at h in omega arith)
      ]
