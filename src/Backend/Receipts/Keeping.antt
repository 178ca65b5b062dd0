-- ===== src/Backend/Receipts/Keeping.antt =====
-- What a change of the states keeps, and the dictionary that is changed.
use sene_x.Common.{
  String, ◌≡◌, refl, ap, subst, ◌∙◌, inl, inr, true, if◌then◌else◌, List, [], ◌∷◌, All, some,
  is_some, Bool-cases, arith,
}
use sene_x.Common.Text.{text_eq, eq_iff, text_length}
use sene_x.Backend.Receipts.Store.{State, is_persisted, find_state, put_state}

-- What a change of the states keeps of one of them: its packet, its prediction, and everything
-- once the prediction is persisted.
pub record Kept {P : Type 0} (s s' : State P) : Type 0 where
  pub packet : s'.source_packet_id ≡ s.source_packet_id
  pub hash : s'.source_prediction_sha256 ≡ s.source_prediction_sha256
  pub prediction : s'.prediction ≡ s.prediction
  pub settled : is_persisted s.status ≡ true → s' ≡ s

-- Every state is kept, under its hash.
abbrev pub Later : {P : Type 0} → List (State P) → List (State P) → Type 0
Later ss ss' =
    (hash : String) (s : State _)
    → find_state hash ss ≡ some s
    → (s' : State _) × (find_state hash ss' ≡ some s') × Kept s s'

-- The hash has the 64 digits that `_states` asks for, and there is a prediction.
abbrev pub IsWhole : {P : Type 0} → State P → Type 0
IsWhole s = (text_length s.source_packet_hash ≡ 64) × (is_some s.prediction ≡ true)

abbrev pub AllWhole : {P : Type 0} → List (State P) → Type 0
AllWhole = All IsWhole

module _ {P : Type 0} where
  pub Kept-refl : (s : State P) → Kept s s
  Kept-refl s = record { packet = refl; hash = refl; prediction = refl; settled = λ _. refl }

  pub Later-refl : (ss : List (State P)) → Later ss ss
  Later-refl ss hash s h = (s, h, Kept-refl s)

  pub Kept-trans : {a b c : State P} → Kept a b → Kept b c → Kept a c
  Kept-trans {a} {b} {c} h k = record {
    packet = k.packet ∙ h.packet;
    hash = k.hash ∙ h.hash;
    prediction = k.prediction ∙ h.prediction;
    settled = λ done.
        let same = h.settled done in
        k.settled (ap (λ (s : State P). is_persisted s.status) same ∙ done) ∙ same;
  }

  pub Later-trans : (xs ys zs : List (State P)) → Later xs ys → Later ys zs → Later xs zs
  Later-trans xs ys zs f g hash s h =
      let (s', h', kept) = f hash s h in
      let (s'', h'', kept') = g hash s' h' in (s'', h'', Kept-trans kept kept')

  pub find_state-key :
      (key : String) (ss : List (State P)) (s : State P)
      → find_state key ss ≡ some s
      → s.source_packet_hash ≡ key
  unfolding find_state
  find_state-key key [] s h = cc
  find_state-key key (t ∷ ts) s h =
      ground (arith, find_state-key key ts s, eq_iff t.source_packet_hash key)

  pub find_state-AllWhole :
      (key : String) (ss : List (State P)) (s : State P)
      → AllWhole ss
      → find_state key ss ≡ some s
      → IsWhole s
  unfolding find_state
  find_state-AllWhole key [] s all h = cc
  find_state-AllWhole key (t ∷ ts) s (first, rest) h =
      elim (Bool-cases (text_eq t.source_packet_hash key)) [
        | inl same ↦ let is : t ≡ s = ground (arith, rw same at h) in subst IsWhole is first
        | inr differs ↦ find_state-AllWhole key ts s rest (rw differs at h)
      ]

  -- After a change of one value, its key finds the new one and the others what they found.
  pub find-put_state :
      (key : String) (new : State P) (ss : List (State P))
      → find_state key (put_state new ss)
        ≡ (if text_eq new.source_packet_hash key then some new else find_state key ss)
  unfolding find_state put_state
  find-put_state key new [] = refl
  find-put_state key new (s ∷ ss) = ground (
    arith,
    find-put_state key new ss,
    eq_iff s.source_packet_hash new.source_packet_hash,
    eq_iff new.source_packet_hash key,
    eq_iff s.source_packet_hash key,
  )

  pub put_state-AllWhole :
      (new : State P) (ss : List (State P))
      → IsWhole new
      → AllWhole ss
      → AllWhole (put_state new ss)
  unfolding put_state
  put_state-AllWhole new [] long none_left = (long, tt)
  put_state-AllWhole new (s ∷ ss) long (first, rest) =
      elim (Bool-cases (text_eq s.source_packet_hash new.source_packet_hash)) [
        | inl same ↦ rw same (long, rest)
        | inr differs ↦ rw differs (first, put_state-AllWhole new ss long rest)
      ]

  -- A new value under its key keeps the states when it keeps the one it replaces.
  pub put_state-Later :
      (new : State P) (ss : List (State P))
      → ((s : State P) → find_state new.source_packet_hash ss ≡ some s → Kept s new)
      → Later ss (put_state new ss)
  put_state-Later new ss kept key s h = elim (Bool-cases (text_eq new.source_packet_hash key)) [
    | inl same ↦
        let at = (eq_iff new.source_packet_hash key).0 same in
        (new, rw (find-put_state key new ss, same) refl, kept s (ap (λ k. find_state k ss) at ∙ h))
    | inr differs ↦ (s, rw (find-put_state key new ss, differs) h, Kept-refl s)
  ]
