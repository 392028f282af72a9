-- ===== src/Together/World.antt =====
-- backend/src/disputes/disputes.service.ts and backend/src/payments/payment-processor.service.ts on one
-- database: both read and write the table of splits. Each call is one step.
use stellar_split.Prelude.{Bool, true, false, ◌≡◌}
use stellar_split.Entities.{split_keyed}
use stellar_split.Disputes.Store as DS
use stellar_split.Disputes.Service as DC
use stellar_split.Payments.Store as PS
use stellar_split.Payments.Service as PC

-- The splits are those of the disputes' store.
pub record World : Type 0 where
  pub disputes : DS.Store
  pub payments : PS.Store

abbrev pub payments_view : World → PS.Store
payments_view w = record w.payments {
  tables = record w.payments.tables { splits = w.disputes.splits };
}

unfoldable pub dispute : DS.Env → DC.Call → World → World
dispute env c w = record w { disputes = (DC.perform env c w.disputes).1 }

unfoldable pub pay : PS.Env → PC.Call → World → World
pay env c w =
    let s' : PS.Store = (PC.perform env c (payments_view w)).1 in
    record { disputes = record w.disputes { splits = s'.tables.splits }; payments = s' }

-- The calls that end a dispute.
abbrev pub ends_dispute : DC.Call → Bool
ends_dispute (DC.Call.resolve dto by) = true
ends_dispute (DC.Call.reject i reason by) = true
ends_dispute _ = false

-- Any call but these two, by anybody and with any outcome.
pub data Step (w : World) : World → Type 0 where
  payment : (env : PS.Env) (c : PC.Call) → Step w (pay env c w)
  disputing : (env : DS.Env) (c : DC.Call) → ends_dispute c ≡ false → Step w (dispute env c w)

pub data Reach (w : World) : World → Type 0 where
  here : Reach w w
  next : {v u : World} → Reach w v → Step v u → Reach w u
