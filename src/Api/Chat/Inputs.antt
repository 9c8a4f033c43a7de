-- ===== src/Api/Chat/Inputs.antt =====
-- What input reaches the agent, and when two callers share a session.
use cortex_go.Api.Chat.{session_name, ChatMessage, is_blank_input, chat_input, chat_session}
use cortex_go.Prelude.{
  ℕ, zero, suc, ◌≤◌, ◌≡◌, refl, subst, ◌≢◌, inl, inr, false, none, some, List, [], ◌∷◌, arith, ltb,
  ◌==◌, if◌then◌else◌, Bool-cases, length, take, All, length-take, Str, bytes, str_eq, str_eq_refl,
  is_empty,
}
use cortex_go.Security.Identities.{without_nul, sanitize_prompt, max_prompt}
use cortex_go.Security.Tenants.{scoped}
use cortex_go.Security.Tenants.Isolation.{NoColon, scoped-eq}

-- No byte of the text is NUL.
abbrev pub NoNul : Str → Type 0
NoNul = All (λ c. c ≢ 0)

without_nul-NoNul : (s : Str) → NoNul (without_nul s)
unfolding without_nul
without_nul-NoNul [] = tt
without_nul-NoNul (b ∷ s) = elim (Bool-cases (b == 0)) [
  | inl e ↦ rw e (without_nul-NoNul s)
  | inr n ↦ rw n (ground arith, without_nul-NoNul s)
]

take-NoNul : (n : ℕ) (s : Str) → NoNul s → NoNul (take n s)
take-NoNul zero s h = tt
take-NoNul (suc n) [] h = tt
take-NoNul (suc n) (b ∷ s) h = (h.0, take-NoNul n s h.1)

sanitize_prompt-NoNul : (s : Str) → NoNul (sanitize_prompt s)
unfolding sanitize_prompt
sanitize_prompt-NoNul s = elim (Bool-cases (ltb max_prompt (length (without_nul s)))) [
  | inl e ↦ rw e (take-NoNul max_prompt (without_nul s) (without_nul-NoNul s))
  | inr n ↦ rw n (without_nul-NoNul s)
]

length-sanitize_prompt : (s : Str) → length (sanitize_prompt s) ≤ max_prompt
unfolding sanitize_prompt
length-sanitize_prompt s = elim (Bool-cases (ltb max_prompt (length (without_nul s)))) [
  | inl e ↦ rw e (omega (arith, length-take max_prompt (without_nul s)))
  | inr n ↦ rw n (ground arith)
]

accepted_bounds :
    (c text : Str)
    → (if is_blank_input (sanitize_prompt c) then none else some (sanitize_prompt c)) ≡ some text
    → (is_blank_input text ≡ false) × NoNul text × (length text ≤ max_prompt)
accepted_bounds c text h = elim (Bool-cases (is_blank_input (sanitize_prompt c))) [
  | inl e ↦ (let p : none ≡ some text = rw e at h in cc p)
  | inr e ↦
      let p : some (sanitize_prompt c) ≡ some text = rw e at h in
      let same : sanitize_prompt c ≡ text = cc p in
      subst (λ t. (is_blank_input t ≡ false) × NoNul t × (length t ≤ max_prompt)) same
        (e, sanitize_prompt-NoNul c, length-sanitize_prompt c)
]

-- An input that reaches the agent is not blank, has no NUL byte and at most 100000 bytes.
pub chat_input_bounds :
    (input : Str) (ms : List ChatMessage) (text : Str)
    → chat_input input ms ≡ some text
    → (is_blank_input text ≡ false) × NoNul text × (length text ≤ max_prompt)
unfolding chat_input
chat_input_bounds input ms text h = accepted_bounds _ text h

-- Two tenants with names of their own (not "default", no colon, not the same) never share a session
-- of the agent, whatever sessions they ask for.
pub chat_session-injective :
    (t u s s' : Str)
    → NoColon t
    → NoColon u
    → str_eq t (bytes "default") ≡ false
    → str_eq u (bytes "default") ≡ false
    → chat_session (some t) s ≡ chat_session (some u) s'
    → t ≡ u
unfolding chat_session
chat_session-injective t u s s' p q nt nu h =
    (scoped-eq t u (session_name s) (session_name s') p q (rw nu at (rw nt at h))).0

is_empty-scoped : (t s : Str) → is_empty (scoped t s) ≡ false
is_empty-scoped [] s = refl
is_empty-scoped (b ∷ t) s = refl

-- A caller of the tenant "default" that names the session `t:s` shares the session `s` of tenant `t`.
pub chat_session-shared :
    (t s : Str)
    → str_eq t (bytes "default") ≡ false
    → is_empty s ≡ false
    → chat_session (some (bytes "default")) (scoped t s) ≡ chat_session (some t) s
unfolding chat_session
chat_session-shared t s n e = rw (str_eq_refl (bytes "default"), is_empty-scoped t s, n, e)
