-- ===== src/Wallet/Monero/Inputs/Funded.antt =====
-- wallet/src/core/monerospend.ts, selectInputs: what an accepted plan pays, and why one is refused.
use labyrinth_vault.Prelude.{
  ℕ, zero, suc, ◌+◌, ◌-◌, ◌≤◌, ◌<◌, ◌≡◌, refl, sym, arith, Bool, false, ◌&&◌, ◌++◌, List, [], ◌∷◌,
  none, some, ltb, leb, ◌==◌, if◌then◌else◌, ap, ◌∙◌, append_assoc, append-nil, take, take_all,
  take-nil, take-append_le, length, length-append, ◌⊎◌, inl, inr, Bool-cases, ==_iff,
}
use labyrinth_vault.Wallet.Monero.Inputs.{
  SpendableOutput, nothing_to_send, no_outputs, not_enough, InputPlan, dust, input_total,
  with_value, insert, insert_all, fee_with, settle, choose_from, select_inputs,
}

-- How many outputs pass a test.
unfoldable pub count : (SpendableOutput → Bool) → List SpendableOutput → ℕ
count p [] = 0
count p (o ∷ os) = (if p o then 1 else 0) + count p os

count_snoc :
    (p : SpendableOutput → Bool) (os : List SpendableOutput) (o : SpendableOutput)
    → count p (os ++ o ∷ []) ≡ count p os + count p (o ∷ [])
unfolding count
count_snoc p [] o = omega arith
count_snoc p (q ∷ os) o = omega (arith, count_snoc p os o)

total_snoc :
    (os : List SpendableOutput) (o : SpendableOutput)
    → input_total (os ++ o ∷ []) ≡ input_total os + o.amount
unfolding input_total
total_snoc [] o = omega arith
total_snoc (q ∷ os) o = omega (arith, total_snoc os o)

with_value-total : (os : List SpendableOutput) → input_total (with_value os) ≡ input_total os
unfolding with_value input_total
with_value-total [] = refl
with_value-total (o ∷ os) = ground (arith, with_value-total os)

with_value-count :
    (p : SpendableOutput → Bool) (os : List SpendableOutput) → count p (with_value os) ≤ count p os
unfolding with_value count
with_value-count p [] = omega arith
with_value-count p (o ∷ os) = ground (arith, with_value-count p os)

-- What an insertion into `ps` keeps: the total, the number of outputs, and how many pass a test.
record Adds (os ps qs : List SpendableOutput) : Type 0 where
  total : input_total qs ≡ input_total os + input_total ps
  counted : length qs ≡ length os + length ps
  passing : (p : SpendableOutput → Bool) → count p qs ≡ count p os + count p ps

insert-Adds : (o : SpendableOutput) (os : List SpendableOutput) → Adds (o ∷ []) os (insert o os)
unfolding insert input_total count
insert-Adds o [] = record { total = omega arith; counted = omega arith; passing = λ p. omega arith }
insert-Adds o (q ∷ os) =
    let r = insert-Adds o os in
    record {
      total = ground (arith, r.total);
      counted = ground (arith, r.counted);
      passing = λ p. ground (arith, r.passing p);
    }

insert_all-Adds : (sorted os : List SpendableOutput) → Adds sorted os (insert_all sorted os)
unfolding insert_all input_total count
insert_all-Adds sorted [] = record {
  total = omega arith;
  counted = omega arith;
  passing = λ p. omega arith;
}
insert_all-Adds sorted (o ∷ os) =
    let r = insert_all-Adds (insert o sorted) os in
    let i = insert-Adds o sorted in
    record {
      total = omega (arith, r.total, i.total);
      counted = omega (arith, r.counted, i.counted);
      passing = λ p. omega (arith, r.passing p, i.passing p);
    }

-- The parameters of a plan.
module _ (sending per_byte multiplier ring_size destination_count : ℕ) where
  -- A plan that pays: to the last piconero, with the fee of its shape and at most a dust of change
  -- more, with change that is none or above dust, and with outputs of `owned` only, none of them
  -- more often than it is there.
  pub record IsFunded (owned : List SpendableOutput) (plan : InputPlan) : Type 0 where
    pub accepted : plan.problem ≡ none
    pub balanced : input_total plan.inputs ≡ sending + plan.change + plan.fee
    pub paid :
        fee_with sending per_byte multiplier ring_size destination_count (length plan.inputs)
        ≤ plan.fee
    pub bounded :
        plan.fee
        ≤ fee_with sending per_byte multiplier ring_size destination_count (length plan.inputs)
          + dust
    pub worth : (plan.change ≡ 0) ⊎ (dust < plan.change)
    pub some_inputs : 1 ≤ length plan.inputs
    pub from_owned : (p : SpendableOutput → Bool) → count p plan.inputs ≤ count p owned

  -- The first `k` outputs, by falling amount, do not cover the payment and the fee for `k` inputs.
  abbrev IsShortOf : List SpendableOutput → ℕ → Type 0
  IsShortOf owned k =
      input_total (take k (insert_all [] (with_value owned)))
      < sending + fee_with sending per_byte multiplier ring_size destination_count k

  -- Why a plan is refused: there is nothing to send or to spend; or the outputs that are worth
  -- something are, all together, short of the payment and the fee for as many inputs, which is what
  -- the plan reports, and so are the first `k` of them for every `k`.
  pub data IsRefused (owned : List SpendableOutput) (plan : InputPlan) : Type 0 where
    nothing : plan.problem ≡ some nothing_to_send → sending ≡ 0 → IsRefused owned plan
    worthless : plan.problem ≡ some no_outputs → input_total owned ≡ 0 → IsRefused owned plan
    short :
        (need have : ℕ)
        → plan.problem ≡ some (not_enough need have)
        → need
          ≡ sending
            + fee_with sending per_byte multiplier ring_size destination_count
                (length (with_value owned))
        → have ≡ input_total owned
        → have < need
        → ((k : ℕ) → k ≤ length (with_value owned) → IsShortOf owned k)
        → IsRefused owned plan

  abbrev fee_of : ℕ → ℕ
  fee_of n = fee_with sending per_byte multiplier ring_size destination_count n

  abbrev plan_from : List SpendableOutput → ℕ → List SpendableOutput → InputPlan
  plan_from = choose_from sending per_byte multiplier ring_size destination_count

  abbrev settled : List SpendableOutput → ℕ → ℕ → InputPlan
  settled = settle sending per_byte multiplier ring_size destination_count

  settle_cases :
      (chosen : List SpendableOutput) (total fee : ℕ)
      → ((settled chosen total fee ≡ record {
        problem = none;
        inputs = chosen;
        fee = fee + (total - sending - fee);
        change = 0;
      })
          × (total - sending - fee ≤ dust))
        ⊎ ((settled chosen total fee ≡ record {
          problem = none;
          inputs = chosen;
          fee = fee;
          change = total - sending - fee;
        })
            × ((total - sending - fee ≡ 0) ⊎ (dust < total - sending - fee)))
  unfolding settle
  settle_cases chosen total fee =
      elim (Bool-cases (ltb 0 (total - sending - fee) && leb (total - sending - fee) dust)) [
        | inl e ↦ inl (rw e refl, ground arith)
        | inr e ↦ inr (rw e refl, large (total - sending - fee) e)
      ]
    where
      large : (c : ℕ) → (ltb 0 c && leb c dust) ≡ false → (c ≡ 0) ⊎ (dust < c)
      large zero h = inl refl
      large (suc c) h = inr (ground arith)

  settle-IsFunded :
      (chosen owned : List SpendableOutput) (total fee : ℕ)
      → total ≡ input_total chosen
      → 1 ≤ length chosen
      → fee ≡ fee_of (length chosen)
      → sending + fee ≤ total
      → ((p : SpendableOutput → Bool) → count p chosen ≤ count p owned)
      → IsFunded owned (settled chosen total fee)
  settle-IsFunded chosen owned total fee e one f enough sub = elim (settle_cases chosen total fee) [
    | inl (q, small) ↦ rw q (record {
      accepted = refl;
      balanced = omega arith;
      paid = omega arith;
      bounded = omega arith;
      worth = inl refl;
      some_inputs = one;
      from_owned = sub;
    })
    | inr (q, w) ↦ rw q (record {
      accepted = refl;
      balanced = omega arith;
      paid = omega arith;
      bounded = omega arith;
      worth = w;
      some_inputs = one;
      from_owned = sub;
    })
  ]

  -- One more output that does not suffice.
  short_snoc :
      (chosen : List SpendableOutput) (o : SpendableOutput)
      → ((k : ℕ) → k ≤ length chosen → input_total (take k chosen) < sending + fee_of k)
      → input_total (chosen ++ o ∷ []) < sending + fee_of (length (chosen ++ o ∷ []))
      → (k : ℕ) → k ≤ length (chosen ++ o ∷ [])
      → input_total (take k (chosen ++ o ∷ [])) < sending + fee_of k
  short_snoc chosen o h less k l = elim (Bool-cases (leb k (length chosen))) [
    | inl low ↦ rw (take-append_le k chosen (o ∷ []) (ground arith)) (h k (ground arith))
    | inr high ↦
        let all : k ≡ length (chosen ++ o ∷ []) = ground (arith, length-append chosen (o ∷ [])) in
        rw (all, take_all (length (chosen ++ o ∷ [])) (chosen ++ o ∷ []) (omega arith)) less
  ]

  -- The outputs taken so far, and every front of them, are short of the payment and the fee; with the
  -- ones left they are the outputs of `owned` that are worth something.
  choose_from_cases :
      (chosen os owned : List SpendableOutput) (total : ℕ)
      → chosen ++ os ≡ insert_all [] (with_value owned)
      → ((k : ℕ) → k ≤ length chosen → input_total (take k chosen) < sending + fee_of k)
      → total ≡ input_total chosen
      → total < sending + fee_of (length chosen)
      → input_total chosen + input_total os ≡ input_total owned
      → ((p : SpendableOutput → Bool) → count p chosen + count p os ≤ count p owned)
      → IsFunded owned (plan_from chosen total os) ⊎ IsRefused owned (plan_from chosen total os)
  unfolding choose_from input_total count
  choose_from_cases chosen [] owned total s each e less all sub =
      let same : chosen ≡ insert_all [] (with_value owned) = sym (append-nil chosen) ∙ s in
      let counted : length chosen ≡ length (with_value owned) =
        omega (arith, ap length same, (insert_all-Adds [] (with_value owned)).counted) in
      inr (
        short (sending + fee_of (length chosen)) total refl (ap (λ n. sending + fee_of n) counted)
          (omega arith) less (λ k l. rw (← same) (each k (omega (arith, counted)))))
  choose_from_cases chosen (o ∷ os) owned total s each e less all sub =
      let t = total_snoc chosen o in
      let l = length-append chosen (o ∷ []) in
      elim (Bool-cases (leb (sending + fee_of (length (chosen ++ o ∷ []))) (total + o.amount))) [
        | inl enough ↦ rw enough (
            inl (
              settle-IsFunded (chosen ++ o ∷ []) owned (total + o.amount) _ (omega arith)
                (omega arith) refl (ground arith)
                (λ p. omega (arith, count_snoc p chosen o, sub p))))
        | inr more ↦ rw more (
            choose_from_cases (chosen ++ o ∷ []) os owned (total + o.amount)
              (append_assoc chosen (o ∷ []) os ∙ s)
              (short_snoc chosen o each (ground (arith, t, more))) (omega arith) (ground arith)
              (omega arith) (λ p. omega (arith, count_snoc p chosen o, sub p)))
      ]

  pub select_inputs_cases :
      (owned : List SpendableOutput)
      → IsFunded owned (select_inputs owned sending per_byte multiplier ring_size destination_count)
        ⊎ IsRefused owned
            (select_inputs owned sending per_byte multiplier ring_size destination_count)
  unfolding select_inputs input_total count
  select_inputs_cases owned =
      let a = insert_all-Adds [] (with_value owned) in
      let t = with_value-total owned in
      elim (Bool-cases (sending == 0)) [
        | inl e ↦ rw e (inr (nothing refl (ground arith)))
        | inr e ↦ elim (Bool-cases (length (insert_all [] (with_value owned)) == 0)) [
          | inl f ↦
              rw (e, f)
                (inr (
                  worthless refl (
                    empty_total (with_value owned) t (
                      omega (
                        arith,
                        a.counted,
                        (==_iff (length (insert_all [] (with_value owned))) 0).0 f,
                      )))))
          | inr f ↦
              rw (e, f)
                (choose_from_cases [] (insert_all [] (with_value owned)) owned 0 refl
                  (λ k l. rw (take-nil k) (ground arith)) refl (ground arith)
                  (omega (arith, a.total, t))
                  (λ p. omega (arith, a.passing p, with_value-count p owned)))
        ]
      ]
    where
      empty_total :
          (os : List SpendableOutput)
          → input_total os ≡ input_total owned
          → length os ≡ 0
          → input_total owned ≡ 0
      empty_total [] h l = sym h
      empty_total (o ∷ os) h l = absurd (omega arith)

  pub accepted-IsFunded :
      (owned : List SpendableOutput) (plan : InputPlan)
      → plan ≡ select_inputs owned sending per_byte multiplier ring_size destination_count
      → plan.problem ≡ none
      → IsFunded owned plan
  accepted-IsFunded owned plan e h = by_case (rw e (select_inputs_cases owned))
    where
      by_case : IsFunded owned plan ⊎ IsRefused owned plan → IsFunded owned plan
      by_case (inl f) = f
      by_case (inr (nothing q s)) = cc
      by_case (inr (worthless q s)) = cc
      by_case (inr (short need have q a b c d)) = cc
