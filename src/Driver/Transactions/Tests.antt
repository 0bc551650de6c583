-- ===== src/Driver/Transactions/Tests.antt =====
-- A small server with transactions, and the theorems on it.
use adbc_driver_monetdb.Prelude.{
  ℕ, ◌≡◌, refl, ◌≢◌, inl, inr, Bool, true, false, Option, none, some, List, [], ◌∷◌, ◌++◌, ◌==◌,
  if◌then◌else◌, Bool-cases, Option-cases, Bytes, codes, pos, Outcome, ok, err, panic,
}
use adbc_driver_monetdb.Driver.Text.{text_eq, text_eq_refl}
use adbc_driver_monetdb.Driver.Errors.State.{AdbcError, io}
use adbc_driver_monetdb.Driver.Errors.{CursorError, poisoned, no_result_set}
use adbc_driver_monetdb.Driver.Parameters.Words.{
  is_word, is_identifier_start, is_identifier_continue, identifier_end, is_routine_keyword,
  is_routine_modifier, is_bare_integer_keyword, is_data_change,
}
use adbc_driver_monetdb.Driver.Parameters.Lexer.{
  arm, next_char, quote_or_word, on_semicolon, push_slot, on_named_slot, on_word, apply_arm,
}
use adbc_driver_monetdb.Driver.Parameters.Scan.{
  scan_query, in_quotes, in_single_quotes, in_escaped_quotes, in_line_comment, in_block_comment,
  scan_round, scan_loop, initial_state, finish_scan,
}
use adbc_driver_monetdb.Driver.Parameters.Procedural.{
  observe_word, new_procedural_scan, terminates_block, next_prefix, observe_prefix, observe_body,
  semicolon_is_internal,
}
use adbc_driver_monetdb.Driver.Transactions.Keywords.{
  skip_lead, split_word, leading_sql_keyword, rollback_words, is_transaction_rollback,
  is_prepare_statement,
}
use adbc_driver_monetdb.Driver.Transactions.Effects.{
  no_effects, statement_effects, effects_of, unbound_statements, space_width, trim_front, trim_utf8,
  statement_slices, TransactionEffects, scanned, transaction_effects,
}
use adbc_driver_monetdb.Driver.Transactions.Server.{Call, Server}
use adbc_driver_monetdb.Driver.Transactions.Session.{Session, rollback_required}
use adbc_driver_monetdb.Driver.Transactions.Atomic.{
  AtomicScope, finalize, recover, finalized, finish_atomic, autocommit_scope, savepoint_scope,
}
use adbc_driver_monetdb.Driver.Transactions.Promises.{IsTransactional}
use adbc_driver_monetdb.Driver.Transactions.Recovery.{
  finish_atomic-undoes, finish_atomic-keeps, IsFinal, HasEnded,
}
use adbc_driver_monetdb.Driver.Transactions.Reports.{Reports, NeverPanics, finish_atomic-root}
use adbc_driver_monetdb.Driver.Transactions.Refine.{
  SessionEvent, poisoned, executed, begun, autocommit_set,
}
use adbc_driver_monetdb.Driver.Transactions.Updates.{
  UpdateError, adbc_error, any_prepares, set_autocommit_option, execute_update,
  execute_update_script,
}
use adbc_driver_monetdb.Driver.Transactions.Guarded.{poisoned_commit-refused, Refuses}
use adbc_driver_monetdb.Driver.Transactions.Batches.{next_batch, script_statement, batch_script}
use adbc_driver_monetdb.Driver.Transactions.Filled.{IsFilled, next_batch-IsFilled}
use adbc_driver_monetdb.Driver.Transactions.Shortcut.{transaction_effects-unbound}

-- The data is a number.
record Store : Type 0 where
  committed_data : ℕ
  current_data : ℕ
  saved : Bytes → Option ℕ
  automatic : Bool

abbrev strip : Bytes → Bytes → Option Bytes
strip [] text = some text
strip (b ∷ bs) [] = none
strip (b ∷ bs) (c ∷ text) = let rest = strip bs text in if b == c then rest else none

abbrev go_back : Option ℕ → Store → Outcome (CursorError ℕ) (Unit {0}) × Store
go_back none s = (err no_result_set, s)
go_back (some d) s = (ok tt, record s { current_data = d })

abbrev forget : Bytes → Store → Store
forget name s = record s { saved = λ other. if text_eq other name then none else s.saved other }

abbrev run_release : Option Bytes → Store → Outcome (CursorError ℕ) (Unit {0}) × Store
run_release none s = (ok tt, s)
run_release (some name) s = (ok tt, forget name s)

abbrev run_sql : Bytes → Call Store (CursorError ℕ) (Unit {0})
run_sql sql s =
    if text_eq sql (codes "COMMIT")
    then (ok tt, record s { committed_data = s.current_data })
    else if text_eq sql (codes "ROLLBACK")
    then (ok tt, record s { current_data = s.committed_data })
    else elim (strip (codes "ROLLBACK TO SAVEPOINT ") sql) [
      | some name ↦ go_back (s.saved name) s
      | none ↦ run_release (strip (codes "RELEASE SAVEPOINT ") sql) s
    ]

abbrev store_server : Server Store ℕ
store_server = record {
  execute = run_sql;
  autocommit = λ s. (ok s.automatic, s);
  set_autocommit = λ enabled s. (ok tt, record s { automatic = enabled });
  has_result_set = λ s. false;
  affected_rows = λ s. some (pos 1);
  display = λ e. codes "failed";
}

store_rollback_to :
    (name : Bytes) (s : Store) (d : ℕ)
    → s.saved name ≡ some d
    → (run_sql (codes "ROLLBACK TO SAVEPOINT " ++ name) s).0 ≡ ok tt
    → (run_sql (codes "ROLLBACK TO SAVEPOINT " ++ name) s).1.current_data ≡ d
unfolding text_eq
store_rollback_to name s d h k = simp h refl

store_release :
    (name : Bytes) (s : Store)
    → ((run_sql (codes "RELEASE SAVEPOINT " ++ name) s).1.current_data ≡ s.current_data)
      × ((run_sql (codes "RELEASE SAVEPOINT " ++ name) s).1.saved name ≡ none)
unfolding text_eq
store_release name s = (refl, rw (text_eq_refl name) refl)

store-IsTransactional : IsTransactional store_server ℕ
unfolding text_eq
store-IsTransactional = record {
  current = λ s. s.current_data;
  committed = λ s. s.committed_data;
  at_savepoint = λ name s. s.saved name;
  automatic = λ s. s.automatic;
  at_end = λ d. d;
  rollback = λ s h. (refl, refl);
  commit = λ s h. (refl, refl);
  failed_commit = λ s e h. absurd (cc);
  rollback_to = store_rollback_to;
  release = λ name s h. store_release name s;
  failed_release = λ name s e h. absurd (cc);
  mode = λ enabled s h. (refl, refl);
  mode_set = λ enabled s h. refl;
}

abbrev two_rows_written : Store
two_rows_written = record {
  committed_data = 3;
  current_data = 5;
  saved = λ name. some 4;
  automatic = false;
}

abbrev no_disk : AdbcError
no_disk = record {
  message = codes "disk";
  status = io;
  sqlstate = codes "58030";
  private_data = false;
  details = [];
}

-- An operation that fails behind a savepoint at which the data was 4.
abbrev behind_savepoint : AtomicScope
behind_savepoint = savepoint_scope (codes "p") false

finish_atomic-undoes_example :
    ((finish_atomic store_server {A = ℕ} behind_savepoint
        (err no_disk)
        two_rows_written).1.current_data
      ≡ 4)
    × ((a : ℕ)
        → (finish_atomic store_server behind_savepoint (err no_disk) two_rows_written).0 ≢ ok a)
unfolding finalized recover text_eq store-IsTransactional
finish_atomic-undoes_example =
    finish_atomic-undoes store_server store-IsTransactional behind_savepoint (err no_disk)
      two_rows_written 4 no_disk (refl, refl) refl refl

-- A count that is committed.
finish_atomic-keeps_example :
    IsFinal store_server store-IsTransactional autocommit_scope two_rows_written
      (finish_atomic store_server {A = ℕ} autocommit_scope (ok 2) two_rows_written).1
    × HasEnded store_server store-IsTransactional autocommit_scope 2
        (finalize store_server autocommit_scope two_rows_written).1
        (finish_atomic store_server {A = ℕ} autocommit_scope (ok 2) two_rows_written)
unfolding finalize text_eq
finish_atomic-keeps_example =
    finish_atomic-keeps store_server store-IsTransactional autocommit_scope two_rows_written 2 refl

-- The store has no savepoint to go back to.
abbrev nothing_saved : Store
nothing_saved = record two_rows_written { saved = λ name. none }

go_back-returns : (o : Option ℕ) (s : Store) → (go_back o s).0 ≢ panic
go_back-returns none s = λ e. cc
go_back-returns (some d) s = λ e. cc

run_release-returns : (o : Option Bytes) (s : Store) → (run_release o s).0 ≢ panic
run_release-returns none s = λ e. cc
run_release-returns (some name) s = λ e. cc

run_sql-returns : (sql : Bytes) (s : Store) → (run_sql sql s).0 ≢ panic
run_sql-returns sql s = elim (Bool-cases (text_eq sql (codes "COMMIT"))) [
  | inl commits ↦ rw commits (λ e. cc)
  | inr no_commit ↦ elim (Bool-cases (text_eq sql (codes "ROLLBACK"))) [
    | inl rolls ↦ rw (no_commit, rolls) (λ e. cc)
    | inr neither ↦ elim (Option-cases (strip (codes "ROLLBACK TO SAVEPOINT ") sql)) [
      | inl nothing ↦
          rw (no_commit, neither, nothing)
            (run_release-returns (strip (codes "RELEASE SAVEPOINT ") sql) s)
      | inr (name, back) ↦ rw (no_commit, neither, back) (go_back-returns (s.saved name) s)
    ]
  ]
]

store-NeverPanics : NeverPanics store_server
store-NeverPanics = record { execute = run_sql-returns; set_autocommit = λ enabled s. λ e. cc }

finish_atomic-root_example :
    Reports no_disk
      (finish_atomic store_server {A = ℕ} behind_savepoint (err no_disk) nothing_saved).0
finish_atomic-root_example =
    finish_atomic-root store_server store-NeverPanics ℕ behind_savepoint no_disk nothing_saved

abbrev history : List SessionEvent
history =
    poisoned (codes "late")
    ∷ poisoned (codes "early")
    ∷ begun true
    ∷ autocommit_set false true
    ∷ begun true
    ∷ executed (record { commit = false; rollback = true })
    ∷ poisoned (codes "old")
    ∷ []

abbrev ascii_only : Bytes → Bool
ascii_only bytes = false

abbrev poisoned_session : Session
poisoned_session = record { transaction_modified = true; transaction_poison = some (codes "early") }

abbrev commit_query : Bytes
commit_query = codes "COMMIT"

abbrev refusal : {A : Type 0} → Outcome UpdateError A × (Store × Session)
refusal =
    (err (adbc_error (rollback_required (codes "early"))), (two_rows_written, poisoned_session))

-- The commit is seen, and the rollback to a savepoint is not a rollback.
commits :
    effects_of no_effects (commit_query ∷ codes "rollback WORK to savepoint x" ∷ [])
    ≡ record { commit = true; rollback = false }
unfolding effects_of statement_effects leading_sql_keyword skip_lead split_word is_word text_eq
    is_transaction_rollback rollback_words
commits = refl

commit_statements : unbound_statements ascii_only commit_query ≡ ok (commit_query ∷ [])
unfolding unbound_statements scanned scan_query scan_loop initial_state scan_round apply_arm arm
    quote_or_word is_identifier_start on_word identifier_end is_identifier_continue finish_scan
    statement_slices trim_utf8 trim_front space_width next_char on_named_slot on_semicolon push_slot
    new_procedural_scan next_prefix observe_body observe_prefix observe_word semicolon_is_internal
    terminates_block in_block_comment in_escaped_quotes in_line_comment in_quotes in_single_quotes
    is_bare_integer_keyword is_data_change is_routine_keyword is_routine_modifier is_word text_eq
commit_statements = refl

abbrev commit_effects : TransactionEffects
commit_effects = record { commit = true; rollback = false }

commit_found : effects_of no_effects (commit_query ∷ []) ≡ commit_effects
unfolding effects_of statement_effects leading_sql_keyword skip_lead split_word is_word text_eq
commit_found = refl

transaction_effects-unbound_example :
    transaction_effects ascii_only commit_query ≡ ok (effects_of no_effects (commit_query ∷ []))
transaction_effects-unbound_example =
    transaction_effects-unbound ascii_only commit_query (commit_query ∷ []) commit_statements

commit_word : leading_sql_keyword commit_query ≡ some (codes "COMMIT", [])
unfolding leading_sql_keyword skip_lead split_word is_word text_eq
commit_word = refl

word_is_commit : is_word "commit" (codes "COMMIT") ≡ true
unfolding is_word text_eq
word_is_commit = refl

poisoned_commit-refused_example :
    Refuses
      (is_prepare_statement commit_query)
      (codes "early")
      (two_rows_written, poisoned_session)
      (execute_update ascii_only store_server commit_query (two_rows_written, poisoned_session))
    × Refuses
        (any_prepares (commit_query ∷ []))
        (codes "early")
        (two_rows_written, poisoned_session)
        (execute_update_script ascii_only store_server commit_query
          (two_rows_written, poisoned_session))
    × (set_autocommit_option store_server true (two_rows_written, poisoned_session) ≡ refusal)
poisoned_commit-refused_example =
    poisoned_commit-refused ascii_only store_server commit_query [] [] commit_query (codes "COMMIT")
      [] two_rows_written poisoned_session (codes "early") refl commit_statements commit_word
      word_is_commit

abbrev two_queries : List (Outcome ℕ Bytes)
two_queries = ok (codes "EXEC 1(1)") ∷ ok (codes "EXEC 1(2);") ∷ []

script_of_two :
    batch_script (codes "a; " ∷ codes "b" ∷ []) ≡ codes "a;" ++ b'\n' ∷ codes "b;" ++ b'\n' ∷ []
unfolding batch_script script_statement trim_front space_width
script_of_two = refl

next_batch-IsFilled_example :
    IsFilled
      (ok (codes "EXEC 1(0)") ∷ two_queries)
      (next_batch (some (codes "EXEC 1(0)")) two_queries)
next_batch-IsFilled_example = next_batch-IsFilled (some (codes "EXEC 1(0)")) two_queries
