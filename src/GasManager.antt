-- ===== src/GasManager.antt =====
-- crates/gas_manager/src/lib.rs: the gas balance and its thresholds.
use deadmkt_node.Prelude.{
  ℕ, ◌*◌, ◌%◌, ◌^◌, ◌≤◌, ◌<◌, ◌≡◌, ◌↔◌, Bool, true, false, ltb, leb, if◌then◌else◌, arith, u64_mul,
}

pub data GasStatus : Type 0 where
  normal low critical : GasStatus

pub record BondReclaimCheck : Type 0 where
  pub reclaimable : Bool
  pub unlock_at : ℕ
  pub current_block : ℕ

pub record GasManager : Type 0 where
  pub balance : ℕ
  pub warn_threshold : ℕ
  pub critical_threshold : ℕ
  pub decimals : ℕ

abbrev pub default_warn_supra : ℕ
default_warn_supra = 10

abbrev pub default_critical_supra : ℕ
default_critical_supra = 1

-- The power and the products wrap in 64 bits.
unfoldable pub new : ℕ → GasManager
new decimals =
    let factor = 10 ^ decimals % 2 ^ 64 in
    record {
      balance = 0;
      warn_threshold = u64_mul default_warn_supra factor;
      critical_threshold = u64_mul default_critical_supra factor;
      decimals = decimals;
    }

unfoldable pub with_thresholds : ℕ → ℕ → ℕ → GasManager
with_thresholds decimals warn_threshold critical_threshold = record {
  balance = 0;
  warn_threshold = warn_threshold;
  critical_threshold = critical_threshold;
  decimals = decimals;
}

unfoldable pub check_status : GasManager → GasStatus
check_status g =
    if ltb g.balance g.critical_threshold
    then GasStatus.critical
    else if ltb g.balance g.warn_threshold
    then GasStatus.low
    else GasStatus.normal

abbrev pub is_critical : GasStatus → Bool
is_critical GasStatus.critical = true
is_critical _ = false

unfoldable pub should_trade : GasManager → Bool
unfolding check_status
should_trade g = if is_critical (check_status g) then false else true

unfoldable pub update_balance : GasManager → ℕ → GasManager × (GasStatus × GasStatus)
unfolding check_status
update_balance g new_balance =
    let g' = record g { balance = new_balance } in (g', (check_status g, check_status g'))

unfoldable pub check_bond_reclaim : ℕ → ℕ → BondReclaimCheck
check_bond_reclaim unlock_at current_block = record {
  reclaimable = leb unlock_at current_block;
  unlock_at = unlock_at;
  current_block = current_block;
}

-- For at most 18 decimals nothing wraps: a node with 10 SUPRA or more is normal, with less than
-- 1 SUPRA critical, and low in between, whatever it held before; and it trades exactly when it
-- holds at least 1 SUPRA.
pub default_thresholds :
    (decimals balance : ℕ)
    → 10 * 10 ^ decimals < 2 ^ 64
    → ((update_balance (new decimals) balance).1.1 ≡ GasStatus.normal
        ↔ 10 * 10 ^ decimals ≤ balance)
      × ((update_balance (new decimals) balance).1.1 ≡ GasStatus.critical ↔ balance < 10 ^ decimals)
      × (should_trade (update_balance (new decimals) balance).0 ≡ true ↔ 10 ^ decimals ≤ balance)
unfolding update_balance new should_trade check_status
default_thresholds decimals balance small =
    ((ground arith, ground arith), (ground arith, ground arith), (ground arith, ground arith))
