-- ===== src/Config/Mainnet/Tests.antt =====
-- The pins of a network on an input, and the theorems about them applied to it.
use myqrlwallet_backend.Prelude.{◌≡◌, ◌↔◌, refl, String, true, some, leb}
use myqrlwallet_backend.Patterns.{
  concat, strip, is_positive_hex, every, count, read_hex, read_decimal, lower_text, char_at,
}
use myqrlwallet_backend.Value.{Value}
use myqrlwallet_backend.Hex.{to_hex, hex_from}
use myqrlwallet_backend.Config.Mainnet.{pinned, parse_rpc_identity, is_chain_pin}
use myqrlwallet_backend.Health.Types.{RpcIdentity}
use myqrlwallet_backend.Health.Poll.{has_chain_id}
use myqrlwallet_backend.Health.Identity.{has_chain_id_iff}
use myqrlwallet_backend.Rpc.Execute.{is_network_name}
use myqrlwallet_backend.Rpc.Execute.Keys.{cache_key-injective, IsConfigured}

abbrev genesis : String
genesis = "0x0123456789abcdef0123456789abcdef0123456789abcdef0123456789ABCDEF"

abbrev pins : RpcIdentity
pins = record { chain_id = "0x3e8"; genesis_hash = lower_text genesis }

pins-pinned : parse_rpc_identity (some "1000") (some genesis) ≡ pinned pins
unfolding parse_rpc_identity is_chain_pin strip every count read_decimal to_hex hex_from concat
    char_at lower_text
pins-pinned = refl

pins-IsConfigured : IsConfigured (some pins)
pins-IsConfigured = ("1000", genesis, pins-pinned)

abbrev main_network : String
main_network = "mainnet"

abbrev chain_method : String
chain_method = "qrl_chainId"

abbrev no_params : String
no_params = "[]"

main_network-IsNetworkName : is_network_name main_network ≡ true
unfolding is_network_name
main_network-IsNetworkName = refl

cache_key-injective_example :
    (main_network ≡ main_network)
    × (some pins ≡ some pins)
    × (chain_method ≡ chain_method)
    × (no_params ≡ no_params)
cache_key-injective_example =
    cache_key-injective main_network main_network (some pins) (some pins) chain_method chain_method
      no_params no_params main_network-IsNetworkName main_network-IsNetworkName pins-IsConfigured
      pins-IsConfigured refl refl refl

abbrev node_chain : String
node_chain = "0x3E8"

has_chain_id_iff_example : (has_chain_id pins (Value.str node_chain) ≡ true) ↔ (
    (rest : String) × (strip "0x" node_chain ≡ some rest)
    × (is_positive_hex rest ≡ true)
    × (leb (count rest) 64 ≡ true)
    × (read_hex 0 rest ≡ read_decimal 0 "1000"))
has_chain_id_iff_example = has_chain_id_iff "1000" genesis node_chain pins pins-pinned
