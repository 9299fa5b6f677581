-- ===== src/Config/Defs.antt =====
-- crates/config/src/lib.rs: the types and the operations. Reading and writing the file is serde's;
-- the process environment, the clock and the random token are arguments.
use deadmkt_node.Prelude.{
  ℕ, ◌-◌, ◌^◌, Bool, true, false, not, ◌&&◌, ◌||◌, ltb, ◌==◌, if◌then◌else◌, Option, none, some,
  List, [], ◌∷◌, String, string_eq, nat_eq,
}
use deadmkt_node.Maps.{Map, is_some}
use deadmkt_node.Text.Search.{codes}
use deadmkt_node.Text.Parse.{from_str_radix}

pub data Network : Type 0 where
  testnet mainnet : Network

abbrev pub chain_id : Network → ℕ
chain_id testnet = 6
chain_id mainnet = 1

abbrev pub max_holding_period_days : ℕ
max_holding_period_days = 367

pub record ContractAddresses : Type 0 where
  pub settlement : String
  pub escrow : String
  pub nft : String
  pub pool_config : String

pub record ProfitConfig : Type 0 where
  pub base_capital : Map String ℕ
  pub threshold_pct : ℕ
  pub transfer_mode : String
  pub transfer_mode_value : Option ℕ

pub record WithdrawalConfig : Type 0 where
  pub holding_period_days : ℕ
  pub rushed_withdrawal_enabled : Bool

pub record NodeConfig : Type 0 where
  pub network : Network
  pub rpc_urls : List String
  pub nft_id : ℕ
  pub trustee_address : String
  pub payout_address : String
  pub sponsor_address : String
  pub contracts : ContractAddresses
  pub bootstrap_peers : List String
  pub strategy_auth_token : String
  pub markets : List String
  pub token_decimals : Map String ℕ
  pub profit_taking : ProfitConfig
  pub withdrawal_rules : WithdrawalConfig
  pub strategy_port : ℕ
  pub gossip_port : ℕ
  pub chain_id : ℕ
  pub max_gas_amount : ℕ
  pub gas_unit_price : ℕ
  pub created_at : String

abbrev pub default_bootstrap_peers : Network → List String
default_bootstrap_peers testnet =
    "peer1.testnet.deadmkt.com:9191" ∷ "peer2.testnet.deadmkt.com:9191"
    ∷ "peer3.testnet.deadmkt.com:9191" ∷ "peer4.testnet.deadmkt.com:9191"
    ∷ "peer5.testnet.deadmkt.com:9191" ∷ []
default_bootstrap_peers mainnet =
    "peer1.deadmkt.com:9191" ∷ "peer2.deadmkt.com:9191" ∷ "peer3.deadmkt.com:9191"
    ∷ "peer4.deadmkt.com:9191" ∷ "peer5.deadmkt.com:9191" ∷ []

abbrev pub default_rpc_urls : Network → List String
default_rpc_urls testnet = "https://rpc-testnet.supra.com" ∷ "https://rpc-testnet2.supra.com" ∷ []
default_rpc_urls mainnet = "https://rpc-mainnet.supra.com" ∷ []

abbrev pub default_address : Network → String
default_address testnet = "0x79b2ad6fea72a9aed2ea4bb7ded31c2741d52d7777b92fbc83dd80a7862094a9"
default_address mainnet = ""

abbrev pub default_contract_addresses : Network → ContractAddresses
default_contract_addresses network = record {
  settlement = default_address network;
  escrow = default_address network;
  nft = default_address network;
  pool_config = default_address network;
}

abbrev pub is_empty : String → Bool
is_empty s = s == ""

-- `if let Ok(addr) = var(..) { if !addr.is_empty() { field = addr } }`
abbrev pub override : Option String → String → String
override none old = old
override (some addr) old = if is_empty addr then old else addr

-- A positive number of 64 bits.
abbrev pub override_gas : Option String → ℕ → ℕ
override_gas none old = old
override_gas (some s) old = elim (from_str_radix 10 (2 ^ 64 - 1) (codes s)) [
  | none ↦ old
  | some v ↦ if ltb 0 v then v else old
]

abbrev pub override_all : Option String → ContractAddresses → ContractAddresses
override_all addr c = record {
  settlement = override addr c.settlement;
  escrow = override addr c.escrow;
  nft = override addr c.nft;
  pool_config = override addr c.pool_config;
}

abbrev pub Environment : Type 0
Environment = String → Option String

unfoldable pub override_contracts : Environment → ContractAddresses → ContractAddresses
override_contracts env contracts =
    let c = override_all (env "DEADMKT_CONTRACT_ADDR") contracts in
    record {
      settlement = override (env "DEADMKT_SETTLEMENT_ADDR") c.settlement;
      escrow = override (env "DEADMKT_ESCROW_ADDR") c.escrow;
      nft = override (env "DEADMKT_NFT_ADDR") c.nft;
      pool_config = override (env "DEADMKT_POOL_CONFIG_ADDR") c.pool_config;
    }

unfoldable pub apply_env_overrides : Environment → NodeConfig → NodeConfig
unfolding override_contracts
apply_env_overrides env c = record c {
  contracts = override_contracts env c.contracts;
  max_gas_amount = override_gas (env "DEADMKT_MAX_GAS") c.max_gas_amount;
  gas_unit_price = override_gas (env "DEADMKT_GAS_PRICE") c.gas_unit_price;
}

unfoldable pub new :
    Environment
    → (token now : String) → Network
    → (nft_id : ℕ) → (trustee_address payout_address sponsor_address : String)
    → (markets : List String) → NodeConfig
unfolding apply_env_overrides
new env token now net nft trustee payout sponsor pairs = apply_env_overrides env (record {
  network = net;
  rpc_urls = default_rpc_urls net;
  nft_id = nft;
  trustee_address = trustee;
  payout_address = payout;
  sponsor_address = sponsor;
  contracts = default_contract_addresses net;
  bootstrap_peers = default_bootstrap_peers net;
  strategy_auth_token = token;
  markets = pairs;
  token_decimals = [];
  profit_taking = record {
    base_capital = [];
    threshold_pct = 20;
    transfer_mode = "all_excess";
    transfer_mode_value = none;
  };
  withdrawal_rules = record { holding_period_days = 90; rushed_withdrawal_enabled = true };
  strategy_port = 9090;
  gossip_port = 9191;
  chain_id = 6;
  max_gas_amount = 5000;
  gas_unit_price = 100000;
  created_at = now;
})

-- The migration of `load`, field by field.
abbrev pub backfill : String → String → String
backfill default old = if is_empty old then default else old

abbrev pub migrate : Network → ContractAddresses → ContractAddresses
migrate network c = record {
  settlement = backfill (default_address network) c.settlement;
  escrow = backfill (default_address network) c.escrow;
  nft = backfill (default_address network) c.nft;
  pool_config = backfill (default_address network) c.pool_config;
}

-- What `load` makes of the configuration in the file.
unfoldable pub load : Environment → (parsed : NodeConfig) → NodeConfig
unfolding apply_env_overrides
load env parsed =
    apply_env_overrides env (record parsed { contracts = migrate parsed.network parsed.contracts })

pub data ConfigError : Type 0 where
  bad_holding_period bad_transfer_mode missing_transfer_value missing_base_capital : ConfigError

abbrev pub is_valid_mode : String → Bool
is_valid_mode mode = mode == "all_excess" || mode == "fixed_amount" || mode == "percentage"

abbrev pub no_tokens : Map String ℕ → Bool
no_tokens [] = true
no_tokens (e ∷ m) = false

-- `none` is `Ok(())`.
unfoldable pub validate : NodeConfig → Option ConfigError
validate c =
    let days = c.withdrawal_rules.holding_period_days in
    let profit = c.profit_taking in
    if ltb days 1 || ltb max_holding_period_days days
    then some bad_holding_period
    else if not (is_valid_mode profit.transfer_mode)
    then some bad_transfer_mode
    else if profit.transfer_mode == "fixed_amount" && not (is_some profit.transfer_mode_value)
    then some missing_transfer_value
    else if ltb 0 profit.threshold_pct && no_tokens profit.base_capital
    then some missing_base_capital
    else none

abbrev pub is_first_boot : (config_exists keystore_exists : Bool) → Bool
is_first_boot config_exists keystore_exists = not config_exists || not keystore_exists
