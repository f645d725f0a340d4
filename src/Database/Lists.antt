-- ===== src/Database/Lists.antt =====
-- The heap over `db_select_bad_actors` and `db_select_called_numbers` of src/database.c.
use sentry_peer.Base.{
  ℕ, zero, suc, ◌+◌, ◌≡◌, ◌∙◌, sym, refl, String, Option, none, some, List, [], ◌∷◌, ◌++◌, arith,
  count, count-append,
}
use sentry_peer.World.{
  World, Env, Str, M, Stop, Run, and_then, emit, pure, free, ask_number, assert_failed, bad_free,
  bad_read, bad_write, stack_overflow, out_of_fuel, exit_with, killed,
}
use sentry_peer.World.Calls.{
  Call, sqlite_open, sqlite_prepare, sqlite_step, sqlite_column_text, sqlite_column_int,
  sqlite_finalize, sqlite_close,
}
use sentry_peer.World.Ends.{
  Ends, ended, halted, Holding, Asserts, bind, check-Ends, call-Ends, ask_text-Ends, emit-Ends,
  malloc-Ends, free-Ends,
}
use sentry_peer.Conf.Settings.{Config}
use sentry_peer.Conf.Buffer.{c_string}
use sentry_peer.Actor.{BadActor, built, bad_actors_destroy}
use sentry_peer.Actor.Memory.{
  Owns, owned, owned_all, bad_actor_new-built, bad_actors_destroy-Holding,
}
use sentry_peer.Database.Select.{
  Column, source_ip, called_number, store_column, row_actor, prepend, after_rows, read_rows,
  close_rows, select_all,
}
use sentry_peer.Database.Lookup.{duplicated-Ends}

-- What a row's bad actor owns.
row_blocks :
    (column : Column) (key last total : Str) (a : ℕ) (self : ℕ) (timestamp uuid node_id : Str)
    → count a (
        owned
          (record (store_column column key
            (built self timestamp uuid node_id none none none none none none none none)) {
              seen_last = some last;
              seen_count = some total;
            }))
      ≡ count a (
          total.block ∷ last.block ∷ node_id.block ∷ uuid.block ∷ timestamp.block ∷ self ∷ key.block
          ∷ [])
row_blocks source_ip key last total a self timestamp uuid node_id = omega arith
row_blocks called_number key last total a self timestamp uuid node_id = omega arith

-- The heap holds what the rows own, and the rest.
pub record OwnsRows (rows : List BadActor) (bs : List ℕ) (w : World) : Type 0 where
  pub blocks : (a : ℕ) → count a w.live ≡ count a (owned_all rows) + count a bs

-- A failed assertion or an exit; or a read past the end, if SQLite has answered with a count of 0.
abbrev pub Selects : Env → Stop → Type 0
Selects env assert_failed = Unit {0}
Selects env (exit_with _) = Unit {0}
Selects env bad_read = (tr : List Call) × (env.number tr (sqlite_column_int 0) ≡ 0)
Selects env _ = ⊥

selects : (env : Env) (s : Stop) → Asserts s → Selects env s
selects env assert_failed p = tt
selects env (exit_with code) p = tt
selects env killed p = p
selects env bad_free p = p
selects env bad_read p = absurd p
selects env bad_write p = p
selects env stack_overflow p = p
selects env out_of_fuel p = p

selecting :
    {A : Type 0} {P : A → World → Type 0} {run : Run A} (env : Env)
    → Ends Asserts P run
    → Ends (Selects env) P run
selecting env (ended p) = ended p
selecting env (halted {s = s} p) = halted (selects env s p)

asked :
    {S : Stop → Type 0} (env : Env) (c : Call) {bs : List ℕ} {w : World}
    → Holding bs w
    → Ends S (λ n w'. Holding bs w' × (n ≡ env.number w.trace c)) (ask_number env c w)
unfolding ask_number
asked env c h = ended (record { same = h.same }, refl)

-- A list that is returned: the array, and what its entries own.
abbrev pub Listed : List ℕ → Option (ℕ × List BadActor) → World → Type 0
Listed bs none w = (leaked : List ℕ) × Holding (leaked ++ bs) w
Listed bs (some (array, rows)) w = Holding (array ∷ (owned_all rows ++ bs)) w

module _ (env : Env) where
  row_actor-Owns :
      (column : Column) (config : Config) {bs : List ℕ} {w : World}
      → Holding bs w
      → Ends Asserts (λ b w'. Owns b bs w') (row_actor env column config w)
  unfolding row_actor
  row_actor-Owns column config h = bind (ask_text-Ends env (sqlite_column_text 0) h) λ t0 w1 h1.
      bind (ask_text-Ends env (sqlite_column_text 1) h1) λ t1 w2 h2.
        bind (ask_text-Ends env (sqlite_column_text 2) h2) λ t2 w3 h3.
          bind (duplicated-Ends env t0 h3) λ key w4 h4.
            bad_actor_new-built env none none none none none none none none config.node_id _ h4
              λ self timestamp uuid node_id w5 h5. bind (duplicated-Ends env t1 h5) λ last w6 h6.
                bind (duplicated-Ends env t2 h6) λ total w7 h7. ended (record {
                  blocks = λ a. omega (
                    arith,
                    h7.same a,
                    row_blocks column key last total a self timestamp uuid node_id,
                  );
                })

  -- The rows that are read, or what a failed read has left behind.
  abbrev Read : ℕ → List ℕ → Option (List BadActor) → World → Type 0
  Read n bs none w = (leaked : List ℕ) × Holding (leaked ++ bs) w
  Read n bs (some rows) w = OwnsRows rows bs w × (rows ≡ [] → n ≡ 0)

  prepend-Read :
      (b : BadActor) (o : Option (List BadActor)) (xs : List ℕ) (n : ℕ) {bs : List ℕ} (w : World)
      → ((a : ℕ) → count a xs ≡ count a (owned b) + count a bs)
      → Read n xs o w
      → Ends Asserts (Read (suc n) bs) (prepend env b o w)
  unfolding prepend
  prepend-Read b none xs n {bs} w e (leaked, h) = ended (
    leaked ++ owned b,
    record {
      same = λ a. omega (
        arith,
        h.same a,
        e a,
        count-append a leaked xs,
        count-append a (leaked ++ owned b) bs,
        count-append a leaked (owned b),
      );
    },
  )
  prepend-Read b (some rows) xs n {bs} w e (o, _) = ended (
    record {
      blocks = λ a. omega (arith, o.blocks a, e a, count-append a (owned b) (owned_all rows));
    },
    λ e. absurd (cc),
  )

  read_rows-Read :
      (column : Column) (config : Config) (n : ℕ) {bs : List ℕ} {w : World}
      → Holding bs w
      → Ends Asserts (Read n bs) (read_rows env column config n w)
  unfolding read_rows
  read_rows-Read column config zero h =
      ended (record { blocks = λ a. omega (arith, h.same a) }, λ _. refl)
  read_rows-Read column config (suc n) h =
      check-Ends (call-Ends env sqlite_step h) (λ w1 h1. ended ([], h1))
        λ w1 h1. bind (row_actor-Owns column config h1) λ b w2 o2.
          bind (read_rows-Read column config n {bs = w2.live} (record { same = λ a. refl }))
            λ o w3 r3. prepend-Read b o w2.live n w3 o2.blocks r3

  destroyed-Listed :
      (array : ℕ) (rows : List BadActor) (after : M (Option (ℕ × List BadActor))) {bs : List ℕ}
      (w : World)
      → (rows ≡ [] → Selects env bad_read)
      → Holding (array ∷ (owned_all rows ++ bs)) w
      → ((w' : World) → Holding bs w' → Ends (Selects env) (Listed bs) (after w'))
      → Ends
          (Selects env)
          (Listed bs)
          (and_then (bad_actors_destroy rows w) λ _ w1. and_then (free array w1) λ _. after)
  destroyed-Listed array rows after {bs} w empty h next =
      bind
        (bad_actors_destroy-Holding rows (array ∷ bs) empty h
          λ a. omega (arith, count-append a (owned_all rows) bs))
        λ _ w1 h1. bind (free-Ends array bs h1 (λ a. refl)) λ _ w2 h2. next w2 h2

  close_rows-Listed :
      (array : ℕ) (rows : List BadActor) {bs : List ℕ} {w : World}
      → (rows ≡ [] → Selects env bad_read)
      → Holding (array ∷ (owned_all rows ++ bs)) w
      → Ends (Selects env) (Listed bs) (close_rows env array rows w)
  unfolding close_rows
  close_rows-Listed array rows {bs} empty h =
      check-Ends (call-Ends env sqlite_finalize h)
        (λ w1 h1.
          destroyed-Listed array rows (λ w. and_then (emit sqlite_close w) λ _. pure none) w1 empty
            h1 λ w2 h2. bind (emit-Ends sqlite_close h2) λ _ w3 h3. ended ([], h3))
        λ w1 h1.
          check-Ends (call-Ends env sqlite_close h1)
            (λ w2 h2. destroyed-Listed array rows (pure none) w2 empty h2 λ w3 h3. ended ([], h3))
            λ w2 h2. ended h2

  after_rows-Listed :
      (array : ℕ) (o : Option (List BadActor)) (n : ℕ) {bs : List ℕ} (w : World)
      → (n ≡ 0 → Selects env bad_read)
      → Read n (array ∷ bs) o w
      → Ends (Selects env) (Listed bs) (after_rows env array o w)
  unfolding after_rows
  after_rows-Listed array none n {bs} w empty (leaked, h) =
      bind
        (free-Ends array (leaked ++ bs) h
          λ a. omega (arith, count-append a leaked (array ∷ bs), count-append a leaked bs))
        λ _ w1 h1. bind (emit-Ends sqlite_close h1) λ _ w2 h2. ended (leaked, h2)
  after_rows-Listed array (some rows) n {bs} w empty (o, counted) =
      close_rows-Listed array rows (λ e. empty (counted e))
        (record { same = λ a. omega (arith, o.blocks a, count-append a (owned_all rows) bs) })

  -- Whatever SQLite answers, a select of a list frees nothing that it did not allocate. It stops at most
  -- by a failed assertion or an exit, or, where SQLite has answered with a count of 0, by a read past the
  -- end of its array of no entries. Where it returns a list, the heap holds the array, what the entries own and the blocks of before, each once; where it
  -- fails, all blocks of before are still allocated, beside those that it has lost.
  pub select_all-Listed :
      (count_query row_query : String) (column : Column) (config : Config) {bs : List ℕ} {w : World}
      → Holding bs w
      → Ends (Selects env) (Listed bs) (select_all env count_query row_query column config w)
  unfolding select_all
  select_all-Listed count_query row_query column config {bs} h =
      check-Ends (call-Ends env (sqlite_open (c_string config.db_file)) h) closes λ w1 h1.
        check-Ends (call-Ends env (sqlite_prepare count_query) h1) closes λ w2 h2.
          check-Ends (call-Ends env sqlite_step h2) closes λ w3 h3.
            bind (asked env (sqlite_column_int 0) h3) λ row_count w4 (h4, answered).
              check-Ends (call-Ends env sqlite_finalize h4) closes λ w5 h5.
                check-Ends (call-Ends env (sqlite_prepare row_query) h5) closes λ w6 h6.
                  bind (malloc-Ends tt h6) λ array w7 h7.
                    bind (selecting env (read_rows-Read column config row_count h7.0)) λ o w8 r8.
                      after_rows-Listed array.block o row_count w8
                        (λ e. (w3.trace, sym answered ∙ e)) r8
    where
      closes :
          (w' : World)
          → Holding bs w'
          → Ends (Selects env) (Listed bs) (and_then (emit sqlite_close w') (λ _. pure none))
      closes w' h' = bind (emit-Ends sqlite_close h') λ _ w2 h2. ended ([], h2)
