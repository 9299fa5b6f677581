-- ===== src/Config/Overrides.antt =====
-- crates/config/src/lib.rs: which value of an address wins, and what a new configuration is worth.
use deadmkt_node.Prelude.{
  ℕ, ◌≤◌, ◌<◌, ◌≡◌, ◌↔◌, refl, ap, ◌∙◌, true, false, ◌==◌, if◌then◌else◌, Option, none, some, List,
  String, string_eq, arith, Bool-cases, inl, inr,
}
use deadmkt_node.Maps.{is_some, get_or}
use deadmkt_node.Config.Defs.{
  Network, testnet, NodeConfig, Environment, is_empty, override, override_contracts,
  apply_env_overrides, new, backfill, default_address, load, validate, is_valid_mode, no_tokens,
  missing_base_capital,
}

-- A setting that is there and not empty.
abbrev pub setting : Option String → Option String
setting none = none
setting (some s) = if is_empty s then none else some s

-- The first of two settings, and otherwise the old value.
abbrev pub winner : (specific blanket : Option String) → (old : String) → String
winner specific blanket old = elim (setting specific) [
  | some s ↦ s
  | none ↦ get_or old (setting blanket)
]

override-winner :
    (specific blanket : Option String) (old : String)
    → override specific (override blanket old) ≡ winner specific blanket old
override-winner none none old = refl
override-winner none (some b) old = ground arith
override-winner (some s) none old = ground arith
override-winner (some s) (some b) old = ground arith

-- Each address of the contracts is the module's own setting of the environment, if it is there and
-- not empty, else the common setting, else what it was; and nothing but the addresses and the two gas
-- values changes.
pub env_override_order :
    (env : Environment) (c : NodeConfig)
    → let d = apply_env_overrides env c in
      let common = env "DEADMKT_CONTRACT_ADDR" in
      (d.contracts.settlement
        ≡ winner (env "DEADMKT_SETTLEMENT_ADDR") common c.contracts.settlement)
      × (d.contracts.escrow ≡ winner (env "DEADMKT_ESCROW_ADDR") common c.contracts.escrow)
      × (d.contracts.nft ≡ winner (env "DEADMKT_NFT_ADDR") common c.contracts.nft)
      × (d.contracts.pool_config
          ≡ winner (env "DEADMKT_POOL_CONFIG_ADDR") common c.contracts.pool_config)
      × (c ≡ record d {
        contracts = c.contracts;
        max_gas_amount = c.max_gas_amount;
        gas_unit_price = c.gas_unit_price;
      })
unfolding apply_env_overrides override_contracts
env_override_order env c = (
  override-winner (env "DEADMKT_SETTLEMENT_ADDR") (env "DEADMKT_CONTRACT_ADDR")
      c.contracts.settlement,
  override-winner (env "DEADMKT_ESCROW_ADDR") (env "DEADMKT_CONTRACT_ADDR") c.contracts.escrow,
  override-winner (env "DEADMKT_NFT_ADDR") (env "DEADMKT_CONTRACT_ADDR") c.contracts.nft,
  override-winner (env "DEADMKT_POOL_CONFIG_ADDR") (env "DEADMKT_CONTRACT_ADDR")
      c.contracts.pool_config,
  refl,
)

override-filled :
    (o : Option String) (old : String) → is_empty old ≡ false → is_empty (override o old) ≡ false
override-filled none old h = h
override-filled (some s) old h = ground arith

backfill-filled : (old : String) → is_empty (backfill (default_address testnet) old) ≡ false
backfill-filled old = elim (Bool-cases (is_empty old)) [
  | inl blank ↦ rw blank refl
  | inr filled ↦ rw filled filled
]

-- On the testnet no address of a loaded configuration is empty, whatever the file and the
-- environment say.
pub loaded_addresses_filled :
    (env : Environment) (parsed : NodeConfig)
    → parsed.network ≡ testnet
    → let c = (load env parsed).contracts in
      (is_empty c.settlement ≡ false)
      × (is_empty c.escrow ≡ false)
      × (is_empty c.nft ≡ false)
      × (is_empty c.pool_config ≡ false)
unfolding load apply_env_overrides override_contracts
loaded_addresses_filled env parsed test = (
  filled (env "DEADMKT_SETTLEMENT_ADDR") parsed.contracts.settlement,
  filled (env "DEADMKT_ESCROW_ADDR") parsed.contracts.escrow,
  filled (env "DEADMKT_NFT_ADDR") parsed.contracts.nft,
  filled (env "DEADMKT_POOL_CONFIG_ADDR") parsed.contracts.pool_config,
)
  where
    filled :
        (o : Option String) (old : String)
        → is_empty (
            override o (
              override
                (env "DEADMKT_CONTRACT_ADDR")
                (backfill (default_address parsed.network) old)))
          ≡ false
    filled o old = override-filled o _ (
        override-filled (env "DEADMKT_CONTRACT_ADDR") _
          (ap (λ n. is_empty (backfill (default_address n) old)) test ∙ backfill-filled old))

-- A configuration is valid exactly when the holding period is 1 to 367 days, the transfer mode is one
-- of the three, the mode `fixed_amount` has its value, and the profit taking, unless its threshold is
-- zero, has a token.
pub validate_iff :
    (c : NodeConfig)
    → (validate c ≡ none) ↔ (
        (1 ≤ c.withdrawal_rules.holding_period_days)
        × (c.withdrawal_rules.holding_period_days ≤ 367)
        × (is_valid_mode c.profit_taking.transfer_mode ≡ true)
        × ((c.profit_taking.transfer_mode == "fixed_amount") ≡ true
            → is_some c.profit_taking.transfer_mode_value ≡ true)
        × (0 < c.profit_taking.threshold_pct → no_tokens c.profit_taking.base_capital ≡ false))
unfolding validate
validate_iff c = ground arith

-- A configuration from the wizard's inputs is never valid as it is made: the profit taking is on and
-- has no token yet.
pub new_is_incomplete :
    (env : Environment) (token now : String) (net : Network) (nft : ℕ)
    (trustee payout sponsor : String) (pairs : List String)
    → validate (new env token now net nft trustee payout sponsor pairs) ≡ some missing_base_capital
unfolding validate new apply_env_overrides
new_is_incomplete env token now net nft trustee payout sponsor pairs = refl
