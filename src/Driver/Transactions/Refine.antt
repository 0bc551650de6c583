-- ===== src/Driver/Transactions/Refine.antt =====
-- The state of a connection against the history of its transaction.
use adbc_driver_monetdb.Prelude.{
  Bool, true, false, ◌||◌, Option, none, some, List, [], ◌∷◌, if◌then◌else◌,
}
use adbc_driver_monetdb.Driver.Text.{Text}
use adbc_driver_monetdb.Driver.Transactions.Effects.{TransactionEffects}
use adbc_driver_monetdb.Driver.Transactions.Session.{
  Session, clear_modified, new_session, poison_transaction, WriteGuard, write_guard,
  drop_write_guard, apply_transaction_rollback,
}

-- What happens to a connection: an operation fails in the middle of its writes, a query with these
-- effects has been executed, an execution begins or ends that may write, autocommit has been set to
-- the first value where it was the second.
pub data SessionEvent : Type 0 where
  poisoned : Text → SessionEvent
  executed : TransactionEffects → SessionEvent
  begun : Bool → SessionEvent
  ended : WriteGuard → SessionEvent
  autocommit_set : Bool → Bool → SessionEvent

unfoldable pub after_event : SessionEvent → Session → Session
after_event (poisoned reason) s = poison_transaction reason s
after_event (executed effects) s = apply_transaction_rollback effects s
after_event (begun modifies) s = (write_guard modifies s).1
after_event (ended g) s = drop_write_guard g s
after_event (autocommit_set enabled current) s = clear_modified enabled current s

-- The state after events, the latest of which comes first.
unfoldable pub after_events : List SessionEvent → Session
after_events [] = new_session
after_events (e ∷ earlier) = after_event e (after_events earlier)

abbrev pub rolls_back : SessionEvent → Bool
rolls_back (executed effects) = effects.rollback
rolls_back _ = false

abbrev pub ends_transaction : SessionEvent → Bool
ends_transaction (executed effects) = effects.commit || effects.rollback
ends_transaction (autocommit_set true current) = true
ends_transaction (autocommit_set false current) = current
ends_transaction _ = false

-- The events after the latest one of a kind.
abbrev pub since : (SessionEvent → Bool) → List SessionEvent → List SessionEvent
since p [] = []
since p (e ∷ earlier) = let rest = since p earlier in if p e then [] else e ∷ rest

-- The reason of the earliest failure, and whether any execution may write.
abbrev pub first_reason : List SessionEvent → Option Text
first_reason [] = none
first_reason (poisoned reason ∷ earlier) = elim (first_reason earlier) [
  | none ↦ some reason
  | some first ↦ some first
]
first_reason (_ ∷ earlier) = first_reason earlier

abbrev pub any_write : List SessionEvent → Bool
any_write [] = false
any_write (begun modifies ∷ earlier) = modifies || any_write earlier
any_write (ended g ∷ earlier) = g.modifies || any_write earlier
any_write (_ ∷ earlier) = any_write earlier
