-- ===== src/Aggregator/Table.antt =====
-- The table that `connectToDB` of
-- src/market_data/historical_data_aggregator/historical_aggregator.cpp looks for and creates.
use hft_system.Prelude.{
  ◌≡◌, refl, arith, sym, ◌∙◌, ◌⊎◌, inl, inr, Bool, true, false, Bool-cases, subst,
}
use hft_system.Aggregator.{
  select_now, table_exists, create_table, create_hypertable, Database, Connected, no_connection,
  query_failed, check_failed, create_failed, without_hypertable, created, existed, make_table,
  connect_to_db,
}

-- As PostgreSQL is documented: whether the table is there is answered truly, a creation that is
-- acknowledged creates it, and the other statements leave it.
pub record IsTruthful {C : Type 0} (db : Database C) (has_table : C → Bool) : Type 0 where
  pub answers :
      (c : C)
      → (db.exec c table_exists).0.tuples_ok ≡ true
      → (db.exec c table_exists).0.value_is_t ≡ has_table (db.exec c table_exists).1
  pub creates :
      (c : C)
      → (db.exec c create_table).0.command_ok ≡ true
      → has_table (db.exec c create_table).1 ≡ true
  pub keeps : (c : C) → has_table (db.exec c create_hypertable).1 ≡ has_table c

-- The outcomes after which the ticks can be written.
abbrev pub is_usable : Connected → Bool
is_usable no_connection = false
is_usable query_failed = false
is_usable check_failed = false
is_usable create_failed = false
is_usable without_hypertable = true
is_usable created = true
is_usable existed = true

module _ {C : Type 0} (db : Database C) (has_table : C → Bool)
    (laws : IsTruthful db has_table) where
  make_table_usable :
      (c : C) (exists : Bool)
      → exists ≡ has_table c
      → is_usable (make_table db c exists).0 ≡ true
      → has_table (make_table db c exists).1 ≡ true
  unfolding make_table
  make_table_usable c true e h = sym e
  make_table_usable c false e h = elim (Bool-cases (db.exec c create_table).0.command_ok) [
    | inl ok ↦
        let there = laws.creates c ok in
        let still = laws.keeps (db.exec c create_table).1 ∙ there in ground (arith, still)
    | inr failed ↦ absurd (ground arith)
  ]

  connect_lem :
      (c : C)
      → (is_usable (connect_to_db db c).0 ≡ false)
        ⊎ (((db.exec (db.exec c select_now).1 table_exists).0.tuples_ok ≡ true)
            × (connect_to_db db c
                ≡ make_table db
                    (db.exec (db.exec c select_now).1 table_exists).1
                    (db.exec (db.exec c select_now).1 table_exists).0.value_is_t))
  unfolding connect_to_db
  connect_lem c = elim (Bool-cases (db.is_ok c)) [
    | inr bad ↦ inl (ground arith)
    | inl ok ↦ elim (Bool-cases (db.exec c select_now).0.tuples_ok) [
      | inr bad ↦ inl (ground arith)
      | inl now ↦ elim (Bool-cases (db.exec (db.exec c select_now).1 table_exists).0.tuples_ok) [
        | inr bad ↦ inl (ground arith)
        | inl check ↦ inr (check, rw (ok, now, check) refl)
      ]
    ]
  ]

  -- With a database that answers truly, whenever connectToDB ends with the table found or created,
  -- with or without its hypertable, the database has the table.
  pub connect_to_db_usable :
      (c : C) → is_usable (connect_to_db db c).0 ≡ true → has_table (connect_to_db db c).1 ≡ true
  connect_to_db_usable c h = elim (connect_lem c) [
    | inl no_use ↦ absurd (ground arith)
    | inr (check, e) ↦
        subst (λ r. has_table r.1 ≡ true) (sym e)
          (make_table_usable _ _ (laws.answers _ check) (subst (λ r. is_usable r.0 ≡ true) e h))
  ]
