-- ===== src/Together/Examples.antt =====
-- A split whose dispute is filed, then a payment for it.
use stellar_split.Prelude.{◌≡◌, refl, true, false, none, some, [], ◌∷◌, find_where, find_by_id, ok}
use stellar_split.Entities.{Split, split_keyed, SplitStatus}
use stellar_split.Invitations.Entity.{Participant, ParticipantStatus}
use stellar_split.Disputes.Entity.{DisputeType, FileDisputeDto, dispute_keyed}
use stellar_split.Disputes.Store as DS
use stellar_split.Disputes.Filing.{file_dispute}
use stellar_split.Disputes.Service as DC
use stellar_split.Payments.Entity.{Verification}
use stellar_split.Payments.Store as PS
use stellar_split.Payments.Service as PC
use stellar_split.Together.World.{World, pay, dispute, payment, here, next}
use stellar_split.Together.Frozen.{filed_stays_frozen}

abbrev lunch : Split
lunch = record {
  id = 1;
  total_amount = 90;
  amount_paid = 0;
  status = SplitStatus.active;
  is_frozen = false;
  created_at = 0;
  due_date = none;
  expiry_date = none;
}

abbrev cleo : Participant
cleo = record {
  id = 3;
  split_id = 1;
  user_id = [];
  amount_owed = 90;
  amount_paid = 0;
  status = ParticipantStatus.pending;
  wallet_address = none;
}

abbrev world : World
world = record {
  disputes = record { disputes = []; evidence = []; splits = lunch ∷ []; events = [] };
  payments = record {
    tables = record { payments = []; participants = cleo ∷ []; splits = []; reputation = [] };
    events = [];
  };
}

abbrev disputes_env : DS.Env
disputes_env = record { now = 40; new_id = 8; write = λ n. true; tx_hash = none }

abbrev transfer : Verification
transfer = record {
  valid = true;
  amount = 90;
  asset = 0;
  source_asset = none;
  is_path_payment = false;
}

abbrev payments_env : PS.Env
payments_env = record {
  now = 50;
  hash = λ a b c. c;
  verify = λ tx. ok (some transfer);
  rate = none;
  conversion_id = 12;
  tracks = true;
  decimals = record {
    plus = λ paid amount. paid;
    covers = λ paid amount owed. false;
    is_zero = λ paid amount. false;
  };
  is_blocked = false;
  has_reputation = false;
  max_reconciliation_attempts = 5;
  new_id = 9;
  write = λ n. true;
  second_rollback = none;
}

abbrev filing : FileDisputeDto
filing = record { split_id = 1; dispute_type = DisputeType.other; description = [] }

abbrev cleo_pays : PC.Call
cleo_pays = PC.Call.submit (record {
  split_id = 1;
  participant_id = 3;
  tx_hash = 70;
  idempotency_key = none;
  external_reference = none;
})

abbrev disputed : World
disputed = dispute disputes_env (DC.Call.file filing 3) world

filed_stays_frozen_example :
    find_by_id 1 (pay payments_env cleo_pays disputed).disputes.splits
    ≡ some (record lunch { is_frozen = true })
unfolding find_by_id file_dispute find_where
filed_stays_frozen_example =
    filed_stays_frozen disputes_env filing 3 world (pay payments_env cleo_pays disputed) lunch refl
      refl (next here (payment payments_env cleo_pays))
