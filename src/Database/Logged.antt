-- ===== src/Database/Logged.antt =====
-- What the first transaction of `hcv_initialize_database` logs.
use helpcovid.Database.Connection.{Connector, ProcessInfo}
use helpcovid.Database.Initialize.{first_transaction}
use helpcovid.Database.Log.{log_message, logreqbuf, fullreqbuf, is_loggable}
use helpcovid.Database.Thrown.{or_thrown, or_thrown-eq-ok}
use helpcovid.Outcome.{ok, database, require, require-eq-ok, >>=-eq-ok}
use helpcovid.Prelude.{
  length-append, length-take, ℕ, suc, zero, Bool, Bytes, List, [], ◌∷◌, ◌++◌, length, take, codes,
  some, true, ◌≤◌, ◌≡◌, arith, ap, refl,
}

take_all {ℓ} : {A : Type ℓ} (n : ℕ) (xs : List A) → length xs ≤ n → take n xs ≡ xs
take_all zero [] h = refl
take_all zero (x ∷ xs) h = absurd (omega arith)
take_all (suc n) [] h = refl
take_all (suc n) (x ∷ xs) h = ap (λ r. x ∷ r) (take_all n xs (omega arith))

-- The buffer's bound.
pub length-logreqbuf :
    (proc : ProcessInfo) (cleardata : Bool) → length (logreqbuf proc cleardata) ≤ 255
unfolding logreqbuf
length-logreqbuf proc cleardata = length-take 255 (log_message proc cleardata)

-- The statement is not cut: a message of 255 bytes at most leaves it below the buffer's 300.
pub fullreqbuf_whole :
    (message : Bytes)
    → length message ≤ 255
    → fullreqbuf message ≡ codes "DO $$BEGIN RAISE LOG '" ++ (message ++ codes "'; END;$$;")
unfolding fullreqbuf
fullreqbuf_whole message h =
    take_all 299 (codes "DO $$BEGIN RAISE LOG '" ++ (message ++ codes "'; END;$$;"))
      (omega (arith, length-append message (codes "'; END;$$;")))

-- If the first transaction of `hcv_initialize_database` returns, then the server has taken a whole
-- statement DO $$BEGIN RAISE LOG '...'; END;$$; whose message has at most 255 bytes, and no quote, no
-- semicolon and no backslash among them.
pub first_transaction-logs {ℓ} :
    {D : Type ℓ} (pq : Connector D) (proc : ProcessInfo) (cleardata : Bool) (db : D) {r : Bytes × D}
    → first_transaction pq proc cleardata db ≡ ok r
    → (message : Bytes) × (length message ≤ 255)
      × (is_loggable message ≡ true)
      × (after : D) × (pq.exec0
            (codes "DO $$BEGIN RAISE LOG '" ++ (message ++ codes "'; END;$$;"))
            db
          ≡ some after)
unfolding first_transaction
first_transaction-logs pq proc cleardata db e =
    let message = logreqbuf proc cleardata in
    let bound = length-logreqbuf proc cleardata in
    let (checked, passed, e1) = >>=-eq-ok (require (is_loggable message) database 687) _ e in
    let (logged, taken, e2) = >>=-eq-ok (or_thrown (pq.exec0 (fullreqbuf message) db) 692) _ e1 in
    let run = or_thrown-eq-ok (pq.exec0 (fullreqbuf message) db) 692 taken in
    (
      message,
      bound,
      require-eq-ok (is_loggable message) database 687 passed,
      logged,
      rw (← fullreqbuf_whole message bound) run,
    )
