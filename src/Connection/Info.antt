-- ===== src/Connection/Info.antt =====
-- connection.cpp, what a connection tells of its databases and what else it sets: db_config, `readonly()`,
-- `metadata()` and the checkpoints.
pub mod Switches
pub mod Changes
use sqxx.Base.{ℕ, zero, suc, String, Bool, true, false, Option, if◌then◌else◌}
use sqxx.Base.Int.{ℤ, pos, negsuc, to_bool}
use sqxx.Effect.{Code, sqlite_error, error, Outcome, returned, thrown, static_error, is_ok}
use sqxx.Statement.{Handle}

-- SQLITE_DBCONFIG_ENABLE_…
pub data Switch : Type 0 where
  enable_fkey enable_trigger : Switch

-- SQLITE_CHECKPOINT_…
pub data Checkpoint : Type 0 where
  passive full restart : Checkpoint

-- What sqlite3_table_column_metadata writes back: the two texts and the three numbers.
pub record RawMetadata : Type 0 where
  pub datatype : Option String
  pub collseq : Option String
  pub notnull : ℤ
  pub primarykey : ℤ
  pub autoinc : ℤ

-- struct column_metadata
pub record ColumnMetadata : Type 0 where
  pub datatype : Option String
  pub collseq : Option String
  pub notnull : Bool
  pub primarykey : Bool
  pub autoinc : Bool

pub record InfoApi (W : Type 0) : Type 0 where
  pub errstr : Code → String
  pub errcode : Handle → W → Code
  pub errmsg : Handle → W → String
  pub db_config : Handle → Switch → ℤ → W → Code × ℤ × W
  pub db_lookaside : Handle → ℕ → ℤ → ℤ → W → Code × W
  pub db_readonly : Handle → String → W → ℤ
  pub table_column_metadata :
      Handle → Option String → String → Option String → W → Code × RawMetadata × W
  pub wal_checkpoint : Handle → Option String → Checkpoint → W → Code × (ℤ × ℤ) × W

module _ {W : Type 0} (api : InfoApi W) (handle : Handle) where
  -- `if (rv != SQLITE_OK) throw static_error(rv); return result;`
  unfoldable answer : {R : Type 0} → Code → R → Outcome R
  answer rv result = if is_ok rv then returned result else thrown (static_error api.errstr rv)

  pub config_lookaside : ℕ → ℤ → ℤ → W → Outcome (Unit {0}) × W
  unfolding answer
  config_lookaside buf slotsize slotcount w =
      let (rv, w') = api.db_lookaside handle buf slotsize slotcount w in (answer rv tt, w')

  unfoldable pub config_enable_fkey : ℤ → W → Outcome Bool × W
  unfolding answer
  config_enable_fkey fk w =
      let (rv, state, w') = api.db_config handle enable_fkey fk w in (answer rv (to_bool state), w')

  unfoldable pub config_enable_trigger : ℤ → W → Outcome Bool × W
  unfolding answer
  config_enable_trigger trig w =
      let (rv, state, w') = api.db_config handle enable_trigger trig w in
      (answer rv (to_bool state), w')

  known : ℤ → Outcome Bool
  known (negsuc zero) = thrown (error sqlite_error "no such database")
  known rw = returned (to_bool rw)

  pub readonly : String → W → Outcome Bool
  unfolding known
  readonly dbname w = known (api.db_readonly handle dbname w)

  -- recent_error(handle) where it fails
  pub metadata : Option String → String → Option String → W → Outcome ColumnMetadata × W
  metadata db table column w =
      let (rv, md, w') = api.table_column_metadata handle db table column w in
      if is_ok rv
      then (
        returned (record {
          datatype = md.datatype;
          collseq = md.collseq;
          notnull = to_bool md.notnull;
          primarykey = to_bool md.primarykey;
          autoinc = to_bool md.autoinc;
        }),
        w',
      )
      else (thrown (error (api.errcode handle w') (api.errmsg handle w')), w')

  pub wal_checkpoint : Option String → Checkpoint → W → Outcome (ℤ × ℤ) × W
  unfolding answer
  wal_checkpoint dbname emode w =
      let (rv, frames, w') = api.wal_checkpoint handle dbname emode w in (answer rv frames, w')

  pub wal_checkpoint_passive : Option String → W → Outcome (ℤ × ℤ) × W
  unfolding wal_checkpoint
  wal_checkpoint_passive dbname = wal_checkpoint dbname passive

  pub wal_checkpoint_full : Option String → W → Outcome (ℤ × ℤ) × W
  unfolding wal_checkpoint
  wal_checkpoint_full dbname = wal_checkpoint dbname full

  pub wal_checkpoint_restart : Option String → W → Outcome (ℤ × ℤ) × W
  unfolding wal_checkpoint
  wal_checkpoint_restart dbname = wal_checkpoint dbname restart
