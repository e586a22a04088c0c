-- ===== src/Wallet/Session/Approval.antt =====
-- session.ts: what the whole history of a payment says about the state it led to.
use labyrinth_vault.Prelude.{
  true, false, ◌≡◌, ◌≢◌, refl, sym, ◌∙◌, ◌++◌, ap, List, [], ◌∷◌, none, inl, inr, arith, All,
}
use labyrinth_vault.Wallet.Session.{
  mismatch, signing, SessionState, SessionEvent, start, reduce, is_verified, can_broadcast, reset,
}
use labyrinth_vault.Wallet.Session.Moves.{
  reduce_mismatch, signs, reduce_signing, is_sound, reduce_sound, takes, verdict_of,
  reduce_verified,
}

-- The events of a session, from the first on.
abbrev pub run : {T : Type 0} → SessionState T → List (SessionEvent T) → SessionState T
run s [] = s
run s (e ∷ es) = run (reduce s e) es

run-append :
    {T : Type 0} (s : SessionState T) (es : List (SessionEvent T)) (e : SessionEvent T)
    → run s (es ++ e ∷ []) ≡ reduce (run s es) e
run-append s [] e = refl
run-append s (d ∷ es) e = run-append (reduce s d) es e

-- The states that events lead to from the start.
pub data Reach {T : Type 0} : SessionState T → Type 0 where
  begun : Reach start
  moved : {s : SessionState T} → Reach s → (e : SessionEvent T) → Reach (reduce s e)

pub Reach-is_sound : {T : Type 0} {s : SessionState T} → Reach s → is_sound s ≡ true
Reach-is_sound begun = refl
Reach-is_sound (moved {s} r e) = reduce_sound s e (Reach-is_sound r)

-- The moment at which a signature passed the check: a state of the session's past, in a step that
-- takes signatures, with the draft and the account that `s` still has, and an event with the
-- verdict that `s` still has.
pub record Approval {T : Type 0} (s : SessionState T) : Type 0 where
  pub earlier : SessionState T
  pub come : Reach earlier
  pub event : SessionEvent T
  pub taking : takes earlier.step ≡ true
  pub same_draft : s.draft ≡ earlier.draft
  pub same_account : s.account ≡ earlier.account
  pub same_verdict : s.verified ≡ verdict_of event
  pub later : List (SessionEvent T)
  pub onward : s ≡ run (reduce earlier event) later

verified-Approval :
    {T : Type 0} {s : SessionState T} → Reach s → is_verified s.verified ≡ true → Approval s
verified-Approval begun h = cc
verified-Approval (moved {s} r e) h =
    let (why, (d, a)) = reduce_verified s e (Reach-is_sound r) h in
    elim why [
      | inl (was, same) ↦
          let p = verified-Approval r was in
          record {
            earlier = p.earlier;
            come = p.come;
            event = p.event;
            taking = p.taking;
            same_draft = d ∙ p.same_draft;
            same_account = a ∙ p.same_account;
            same_verdict = same ∙ p.same_verdict;
            later = p.later ++ e ∷ [];
            onward =
                ap (λ x. reduce x e) p.onward
                ∙ sym (run-append (reduce p.earlier p.event) p.later e);
          }
      | inr (at, v) ↦ record {
        earlier = s;
        come = r;
        event = e;
        taking = at;
        same_draft = d;
        same_account = a;
        same_verdict = v;
        later = [];
        onward = refl;
      }
    ]

can_broadcast_needs :
    {T : Type 0} (s : SessionState T) → can_broadcast s ≡ true → is_verified s.verified ≡ true
unfolding can_broadcast
can_broadcast_needs s h = ground arith

sound-has_draft :
    {T : Type 0} (s : SessionState T)
    → is_sound s ≡ true
    → is_verified s.verified ≡ true
    → s.draft ≢ none
sound-has_draft s h k = λ e. ground arith

-- In every state that events can lead to from the start and that can broadcast, there is a draft,
-- the verdict passed, and it was brought by an event of the session's past, which met a step that
-- reads a signature back or signs here, with the draft and the account that the state still has.
pub can_broadcast-Approval :
    {T : Type 0} (s : SessionState T)
    → Reach s
    → can_broadcast s ≡ true
    → Approval s × (is_verified s.verified ≡ true) × (s.draft ≢ none)
can_broadcast-Approval s r h =
    let v = can_broadcast_needs s h in
    (verified-Approval r v, v, sound-has_draft s (Reach-is_sound r) v)

-- A mismatch is terminal: no events without a reset among them change anything of the state.
pub run_mismatch :
    {T : Type 0} (s : SessionState T) (es : List (SessionEvent T))
    → s.step ≡ mismatch
    → All (λ e. e ≢ reset) es
    → run s es ≡ s
run_mismatch s [] h n = refl
run_mismatch s (e ∷ es) h (n, ns) =
    let q = reduce_mismatch s e h n in ap (λ x. run x es) q ∙ run_mismatch s es h ns

-- A session that is not in the step that signs here, and in which no event allows to sign here,
-- never comes to that step.
pub run_signing :
    {T : Type 0} (s : SessionState T) (es : List (SessionEvent T))
    → s.step ≢ signing
    → All (λ e. signs e ≡ false) es
    → (run s es).step ≢ signing
run_signing s [] h n = h
run_signing s (e ∷ es) h (n, ns) =
    run_signing (reduce s e) es (λ q. elim (reduce_signing s e q) [ inl w ↦ h w | inr w ↦ cc ]) ns
