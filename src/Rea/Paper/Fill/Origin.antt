-- ===== src/Rea/Paper/Fill/Origin.antt =====
-- What no registration and no fill changes.
use sene_x.Common.{◌≡◌, refl, inl, inr}
use sene_x.Rea.Paper.State.{PaperState, Digest}
use sene_x.Rea.Paper.Fill.{FillEvent}
use sene_x.Rea.Paper.Fill.Inversion.{apply_fill_cases}
use sene_x.Rea.Paper.Fill.Registration.{register_order_cases}
use sene_x.Rea.Paper.Fill.History.{Step, registers, fills, Reach, here, next}

-- The same source, configuration and starting cash.
pub record SameOrigin (s t : PaperState) : Type 0 where
  pub source : t.source_sha256 ≡ s.source_sha256
  pub config : t.config_sha256 ≡ s.config_sha256
  pub cash : t.starting_cash ≡ s.starting_cash

module _ (digest : FillEvent → Digest) where
  Step-SameOrigin : {s t : PaperState} → Step digest s t → SameOrigin s t
  Step-SameOrigin (registers s t oid cid side q h) =
      elim (register_order_cases s oid cid side q t h) [
        | inl same ↦ rw same (record { source = refl; config = refl; cash = refl })
        | inr g ↦ rw g.result (record { source = refl; config = refl; cash = refl })
      ]
  Step-SameOrigin (fills s t e r h) = elim (apply_fill_cases digest s e t r h) [
    | inl (same, _) ↦ rw same (record { source = refl; config = refl; cash = refl })
    | inr a ↦ rw a.result (record { source = refl; config = refl; cash = refl })
  ]

  pub Reach-SameOrigin : {s t : PaperState} → Reach digest s t → SameOrigin s t
  Reach-SameOrigin here = record { source = refl; config = refl; cash = refl }
  Reach-SameOrigin (next r st) =
      let a = Reach-SameOrigin r in
      let b = Step-SameOrigin st in record { source = cc; config = cc; cash = cc }
