-- ===== src/Rea/Engine/Log/Chain.antt =====
-- The hash chain, the numbers and the IDs of a written journal.
use sene_x.Common.{
  ℕ, ◌+◌, String, ◌≡◌, refl, sym, ap, ◌∙◌, true, false, List, [], ◌∷◌, ◌++◌, map, none, some,
  length, length-append, ok, ◌>>=◌, >>=-eq-ok, arith,
}
use sene_x.Common.Text.{mem_text}
use sene_x.Rea.Paper.State.{Digest}
use sene_x.Rea.Paper.Fill.Repeats.{same_digest_refl}
use sene_x.Rea.Engine.Event.{Event, Record, Book, nonempty, unsupported, order_registered}
use sene_x.Rea.Engine.Reduce.{Candidate, reduce, reduce_event}
use sene_x.Rea.Engine.Journal.{
  Hashing, genesis_hash, find_event, next_entry, seal, is_supported, check_line, check_lines,
}
use sene_x.Rea.Engine.Log.{Logged, start, more}

-- The IDs of records, newest first, over those that were there before.
abbrev pub ids_after : List String → List Record → List String
ids_after ids [] = ids
ids_after ids (r ∷ rs) = ids_after (r.entry.event_id ∷ ids) rs

abbrev pub last_hash : Digest → List Record → Digest
last_hash d [] = d
last_hash d (r ∷ rs) = last_hash r.event_sha256 rs

abbrev pub event_ids : List Record → List String
event_ids = map (λ r. r.entry.event_id)

ids_after-snoc :
    (ids : List String) (rs : List Record) (r : Record)
    → ids_after ids (rs ++ r ∷ []) ≡ r.entry.event_id ∷ ids_after ids rs
ids_after-snoc ids [] r = refl
ids_after-snoc ids (x ∷ rs) r = ids_after-snoc (x.entry.event_id ∷ ids) rs r

last_hash-snoc :
    (d : Digest) (rs : List Record) (r : Record) → last_hash d (rs ++ r ∷ []) ≡ r.event_sha256
last_hash-snoc d [] r = refl
last_hash-snoc d (x ∷ rs) r = last_hash-snoc x.event_sha256 rs r

mem_text-find :
    (key : String) (rs : List Record)
    → find_event key rs ≡ none
    → mem_text key (event_ids rs) ≡ false
unfolding find_event mem_text
mem_text-find key [] h = refl
mem_text-find key (r ∷ rs) h = ground (arith, mem_text-find key rs)

module _ (h : Hashing) where
  check-snoc :
      (seq : ℕ) (previous : Digest) (ids : List String) (rs : List Record) (r : Record)
      → check_lines h seq previous ids (map some rs) ≡ ok rs
      → check_line h (seq + length rs) (last_hash previous rs) (ids_after ids rs) r ≡ ok tt
      → check_lines h seq previous ids (map some (rs ++ r ∷ [])) ≡ ok (rs ++ r ∷ [])
  unfolding check_lines
  check-snoc seq previous ids [] r old new =
      let e : seq + 0 ≡ seq = omega arith in ground (arith, e, new)
  check-snoc seq previous ids (x ∷ rs) r old new =
      let (u, first, rest) =
        >>=-eq-ok (check_line h seq previous ids x)
          (λ _.
            check_lines h (seq + 1) x.event_sha256 (x.entry.event_id ∷ ids) (map some rs) >>= λ t.
            ok (x ∷ t))
          old in
      let shift : seq + 1 + length rs ≡ seq + length (x ∷ rs) = omega arith in
      ground (
        arith,
        first,
        rest,
        check-snoc (seq + 1) x.event_sha256 (x.entry.event_id ∷ ids) rs r,
        shift,
        new,
      )

  -- A record that was reduced is of a type that the reader supports.
  supported_of_reduce :
      (b : Book) (event : Event) (n t : ℕ) (c : Candidate)
      → reduce h.digest b event n t ≡ ok c
      → is_supported h event ≡ true
  unfolding reduce reduce_event
  supported_of_reduce b (order_registered p) n t c e = refl
  supported_of_reduce b unsupported n t c e = absurd (ground arith)
  supported_of_reduce b _ n t c e = refl

  -- What ties a book to the records that led to it.
  pub record Chained (b : Book) (rs : List Record) : Type 0 where
    pub numbered : b.journal_seq ≡ length rs
    pub headed : b.journal_head ≡ last_hash genesis_hash rs
    pub known : event_ids b.events ≡ ids_after [] rs
    pub verified : check_lines h 1 genesis_hash [] (map some rs) ≡ ok rs

  new_line :
      (b : Book) (key : String) (event : Event) (t : ℕ) (c : Candidate)
      → nonempty key ≡ ok key
      → find_event key b.events ≡ none
      → reduce h.digest b event (b.journal_seq + 1) t ≡ ok c
      → check_line h
          (b.journal_seq + 1)
          b.journal_head
          (event_ids b.events)
          (seal h (next_entry h b key event t))
        ≡ ok tt
  unfolding check_line
  new_line b key event t c named new reduced = ground (
    arith,
    named,
    mem_text-find key b.events new,
    supported_of_reduce b event (b.journal_seq + 1) t c reduced,
    same_digest_refl b.journal_head,
    same_digest_refl (h.sha (next_entry h b key event t)),
  )

  module _ {b0 : Book} (seq0 : b0.journal_seq ≡ 0) (head0 : b0.journal_head ≡ genesis_hash)
      (events0 : b0.events ≡ []) where
    pub Logged-Chained : {b : Book} {rs : List Record} → Logged h b0 b rs → Chained b rs
    unfolding check_lines
    Logged-Chained start = record {
      numbered = seq0;
      headed = head0;
      known = rw events0;
      verified = refl;
    }
    Logged-Chained (more {b} {rs} l key event t c named new later reduced) =
        let i = Logged-Chained l in
        let r = seal h (next_entry h b key event t) in
        let at_end : 1 + length rs ≡ b.journal_seq + 1 = omega (arith, i.numbered) in
        record {
          numbered = omega (arith, i.numbered, length-append rs (r ∷ []));
          headed = sym (last_hash-snoc genesis_hash rs r);
          known = ap (λ ids. key ∷ ids) i.known ∙ sym (ids_after-snoc [] rs r);
          verified =
              check-snoc 1 genesis_hash [] rs r i.verified
                (rw (at_end, ← i.headed, ← i.known) (new_line b key event t c named new reduced));
        }
