-- ===== src/Driver/Transactions/Recovery.antt =====
-- What `finish_atomic` leaves of the work and of its errors.
use adbc_driver_monetdb.Prelude.{
  ◌≡◌, refl, sym, ap, ◌∙◌, ◌≢◌, true, false, none, some, ◌++◌, codes, Outcome, ok, err, panic,
}
use adbc_driver_monetdb.Driver.Text.{Text}
use adbc_driver_monetdb.Driver.Errors.State.{AdbcError}
use adbc_driver_monetdb.Driver.Errors.{CursorError}
use adbc_driver_monetdb.Driver.Transactions.Server.{Server, after_call, pure, mapped}
use mathlib.Core.Path.{subst}
use adbc_driver_monetdb.Driver.Transactions.Atomic.{
  AtomicScope, recover, autocommit_scope, caller_transaction, savepoint_scope, finalize, finalized,
  recovered, restored, finish_atomic, combine_atomic_error,
}
use adbc_driver_monetdb.Driver.Transactions.Promises.{IsTransactional}

module _ {S P : Type 0} (server : Server S P) where
  pub combine_atomic-failed :
      {A : Type 0} (root : AdbcError) (r : Outcome (CursorError P) (Unit {0})) (context : Text)
      (a : A)
      → combine_atomic_error server (err root) r context ≢ ok a
  unfolding combine_atomic_error
  combine_atomic-failed root (ok u) context a = λ h. cc
  combine_atomic-failed root (err e) context a = λ h. cc
  combine_atomic-failed root panic context a = λ h. cc

  restored-failed :
      {A : Type 0} (scope : AtomicScope) (r : Outcome AdbcError A) (s : S)
      → ((a : A) → r ≢ ok a)
      → (a : A) → (restored server scope (r, s)).0 ≢ ok a
  unfolding restored
  restored-failed caller_transaction r s h = h
  restored-failed (savepoint_scope name retain) r s h = h
  restored-failed autocommit_scope (ok b) s h = absurd (h b refl)
  restored-failed autocommit_scope (err e) s h =
      combine_atomic-failed e (server.set_autocommit true s).0 _
  restored-failed autocommit_scope panic s h = h

module _ {S P D : Type 0} (server : Server S P) (laws : IsTransactional server D) where
  -- The scope goes back to the data `d`. A savepoint that is not retained is one without tables whose
  -- lifetime ends with the transaction, so that releasing it leaves the data.
  abbrev pub GoesBackTo : AtomicScope → S → D → Type 0
  GoesBackTo autocommit_scope s d = laws.committed s ≡ d
  GoesBackTo caller_transaction s d = laws.current s ≡ d
  GoesBackTo (savepoint_scope name true) s d = laws.at_savepoint name s ≡ some d
  GoesBackTo (savepoint_scope name false) s d =
      (laws.at_savepoint name s ≡ some d) × (laws.at_end d ≡ d)

  -- Nothing is pending behind the scope.
  abbrev IsSettled : AtomicScope → S → Type 0
  IsSettled autocommit_scope s = laws.current s ≡ laws.committed s
  IsSettled caller_transaction s = Unit
  IsSettled (savepoint_scope name retain) s = Unit

  recover-current :
      (scope : AtomicScope) (s : S) (d : D)
      → GoesBackTo scope s d
      → (recover server scope s).0 ≡ ok tt
      → (laws.current (recover server scope s).1 ≡ d) × IsSettled scope (recover server scope s).1
  unfolding recover
  recover-current autocommit_scope s d g h =
      let (now, kept) = laws.rollback s h in (now ∙ g, now ∙ sym kept)
  recover-current caller_transaction s d g h = (g, tt)
  recover-current (savepoint_scope name true) s d g h = (laws.rollback_to name s d g h, tt)
  recover-current (savepoint_scope name false) s d (g, lasts) h =
      (go (server.execute (codes "ROLLBACK TO SAVEPOINT " ++ name) s) refl h, tt)
    where
      go :
          (p : Outcome (CursorError P) (Unit {0}) × S)
          → server.execute (codes "ROLLBACK TO SAVEPOINT " ++ name) s ≡ p
          → (after_call p (λ _. server.execute (codes "RELEASE SAVEPOINT " ++ name))).0 ≡ ok tt
          → laws.current (after_call p (λ _. server.execute (codes "RELEASE SAVEPOINT " ++ name))).1
            ≡ d
      go (ok tt, t) e k =
          let back = laws.rollback_to name s d g (ap (λ p. p.0) e) in
          let there : laws.current t ≡ d = sym (ap (λ p. laws.current p.1) e) ∙ back in
          (laws.release name t k).0 ∙ ap laws.at_end there ∙ lasts
      go (err x, t) e k = absurd (cc)
      go (panic, t) e k = absurd (cc)

  -- A statement that fails to make the work final leaves what the scope goes back to.
  finalize-GoesBackTo :
      (scope : AtomicScope) (s : S) (d : D) (e : CursorError P)
      → GoesBackTo scope s d
      → (finalize server scope s).0 ≡ err e
      → GoesBackTo scope (finalize server scope s).1 d
  unfolding finalize
  finalize-GoesBackTo autocommit_scope s d e g h = laws.failed_commit s e h ∙ g
  finalize-GoesBackTo caller_transaction s d e g h = g
  finalize-GoesBackTo (savepoint_scope name true) s d e g h = g
  finalize-GoesBackTo (savepoint_scope name false) s d e (g, lasts) h =
      (laws.failed_release name s e h ∙ g, lasts)

  finalized-GoesBackTo :
      {A : Type 0} (scope : AtomicScope) (operation : Outcome AdbcError A) (s : S) (d : D)
      (root : AdbcError)
      → GoesBackTo scope s d
      → (finalized server scope operation s).0 ≡ err root
      → GoesBackTo scope (finalized server scope operation s).1 d
  unfolding finalized
  finalized-GoesBackTo scope (err x) s d root g h = g
  finalized-GoesBackTo scope panic s d root g h = g
  finalized-GoesBackTo {A = A} scope (ok a) s d root g h = go (finalize server scope s) refl h
    where
      go :
          (p : Outcome (CursorError P) (Unit {0}) × S)
          → finalize server scope s ≡ p
          → (after_call (mapped server p) (λ _. pure a)).0 ≡ err root
          → GoesBackTo scope (after_call (mapped server p) (λ _. pure a)).1 d
      go (ok tt, t) e k = absurd (cc)
      go (panic, t) e k = absurd (cc)
      go (err x, t) e k =
          subst (λ p. GoesBackTo scope p.1 d) e
            (finalize-GoesBackTo scope s d x g (ap (λ p. p.0) e))

  restored-current :
      {A : Type 0} (scope : AtomicScope) (r : Outcome AdbcError A) (s : S)
      → IsSettled scope s
      → laws.current (restored server scope (r, s)).1 ≡ laws.current s
  unfolding restored
  restored-current autocommit_scope (ok a) s h = (laws.mode true s h).0
  restored-current autocommit_scope (err e) s h = (laws.mode true s h).0
  restored-current autocommit_scope panic s h = refl
  restored-current caller_transaction r s h = refl
  restored-current (savepoint_scope name retain) r s h = refl

  -- Where the operation in a scope fails, or its work cannot be made final, and the statements that
  -- undo it succeed, `finish_atomic` returns no value, and the session sees the data that the scope
  -- goes back to, whether or not autocommit can be restored. A savepoint whose scope does not retain
  -- it has no tables whose lifetime ends with the transaction.
  pub finish_atomic-undoes :
      {A : Type 0} (scope : AtomicScope) (operation : Outcome AdbcError A) (s : S) (d : D)
      (root : AdbcError)
      → GoesBackTo scope s d
      → (finalized server scope operation s).0 ≡ err root
      → (recover server scope (finalized server scope operation s).1).0 ≡ ok tt
      → (laws.current (finish_atomic server scope operation s).1 ≡ d)
        × ((a : A) → (finish_atomic server scope operation s).0 ≢ ok a)
  unfolding finish_atomic recovered
  finish_atomic-undoes {A = A} scope operation s d root g h k =
      go (finalized server scope operation s) h (finalized-GoesBackTo scope operation s d root g h)
        k
    where
      go :
          (p : Outcome AdbcError A × S)
          → p.0 ≡ err root
          → GoesBackTo scope p.1 d
          → (recover server scope p.1).0 ≡ ok tt
          → (laws.current (restored server scope (recovered server scope p)).1 ≡ d)
            × ((a : A) → (restored server scope (recovered server scope p)).0 ≢ ok a)
      go (ok a, t) e gt kt = absurd (cc)
      go (panic, t) e gt kt = absurd (cc)
      go (err x, t) e gt kt =
          unfold recovered in
          let (back, settled) = recover-current scope t d gt kt in
          (
            restored-current scope _ (recover server scope t).1 settled ∙ back,
            restored-failed server scope _ _ (combine_atomic-failed server x _ _),
          )

  -- What is left of the work of a scope in the state `s` when it has been made final in `t`.
  abbrev pub IsFinal : AtomicScope → S → S → Type 0
  IsFinal autocommit_scope s t =
      (laws.committed t ≡ laws.at_end (laws.current s))
      × (laws.current t ≡ laws.at_end (laws.current s))
  IsFinal caller_transaction s t = t ≡ s
  IsFinal (savepoint_scope name true) s t = t ≡ s
  IsFinal (savepoint_scope name false) s t =
      (laws.current t ≡ laws.at_end (laws.current s)) × (laws.at_savepoint name t ≡ none)

  -- The result is the operation's, and a scope that had switched autocommit off has it on again; only
  -- such a scope can end without a value, where autocommit cannot be set in the state `u`.
  abbrev pub HasEnded : {A : Type 0} → AtomicScope → A → S → Outcome AdbcError A × S → Type 0
  HasEnded autocommit_scope a u (ok b, t) = (b ≡ a) × (laws.automatic t ≡ true)
  HasEnded autocommit_scope a u (err e, t) = (server.set_autocommit true u).0 ≢ ok tt
  HasEnded autocommit_scope a u (panic, t) = (server.set_autocommit true u).0 ≢ ok tt
  HasEnded caller_transaction a u (r, t) = r ≡ ok a
  HasEnded (savepoint_scope name retain) a u (r, t) = r ≡ ok a

  finalize-IsFinal :
      (scope : AtomicScope) (s : S)
      → (finalize server scope s).0 ≡ ok tt
      → IsFinal scope s (finalize server scope s).1
  unfolding finalize
  finalize-IsFinal autocommit_scope s h = let (now, kept) = laws.commit s h in (kept, now)
  finalize-IsFinal caller_transaction s h = refl
  finalize-IsFinal (savepoint_scope name true) s h = refl
  finalize-IsFinal (savepoint_scope name false) s h = laws.release name s h

  restored-ended :
      {A : Type 0} (a : A) (r : Outcome (CursorError P) (Unit {0})) (u t : S)
      → (server.set_autocommit true u).0 ≡ r
      → (r ≡ ok tt → laws.automatic t ≡ true)
      → HasEnded autocommit_scope a u
          (combine_atomic_error server (ok a) r (codes "restoring autocommit"), t)
  unfolding combine_atomic_error
  restored-ended a (ok tt) u t e h = (refl, h refl)
  restored-ended a (err x) u t e h = λ k. cc
  restored-ended a panic u t e h = λ k. cc

  restored-IsFinal :
      {A : Type 0} (scope : AtomicScope) (a : A) (s t : S)
      → IsFinal scope s t
      → IsFinal scope s (restored server scope (ok a, t)).1
        × HasEnded scope a t (restored server scope (ok a, t))
  unfolding restored
  restored-IsFinal autocommit_scope a s t (kept, now) =
      let (same_now, same_kept) = laws.mode true t (now ∙ sym kept) in
      (
        (same_kept ∙ kept, same_now ∙ now),
        restored-ended a (server.set_autocommit true t).0 t _ refl (laws.mode_set true t),
      )
  restored-IsFinal caller_transaction a s t h = (h, refl)
  restored-IsFinal (savepoint_scope name true) a s t h = (h, refl)
  restored-IsFinal (savepoint_scope name false) a s t h = (h, refl)

  -- Where an operation succeeds and the statement that makes its work final does, too, the work is
  -- kept: in a scope of its own it is committed, also where autocommit cannot be restored; a savepoint
  -- is released; and in a caller's transaction or behind a retained savepoint nothing changes. Of
  -- committed and released work the tables whose lifetime ends with the transaction are left as its
  -- end leaves them. The result is the operation's with autocommit on again, unless it cannot be
  -- restored.
  pub finish_atomic-keeps :
      {A : Type 0} (scope : AtomicScope) (s : S) (a : A)
      → (finalize server scope s).0 ≡ ok tt
      → IsFinal scope s (finish_atomic server scope (ok a) s).1
        × HasEnded scope a (finalize server scope s).1 (finish_atomic server scope (ok a) s)
  unfolding finish_atomic finalized
  finish_atomic-keeps {A = A} scope s a h =
      go (finalize server scope s) h (finalize-IsFinal scope s h)
    where
      go :
          (p : Outcome (CursorError P) (Unit {0}) × S)
          → p.0 ≡ ok tt
          → IsFinal scope s p.1
          → IsFinal scope s
              (restored server scope
                (recovered server scope (after_call (mapped server p) (λ _. pure a)))).1
            × HasEnded scope a p.1 (
                restored server scope
                  (recovered server scope (after_call (mapped server p) (λ _. pure a))))
      go (ok tt, t) e f = unfold recovered in restored-IsFinal scope a s t f
      go (err x, t) e f = absurd (cc)
      go (panic, t) e f = absurd (cc)
