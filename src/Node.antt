-- ===== src/Node.antt =====
-- internal/node/identity.go: the name of the node. What the system answers is a `System`.
use compute_agent.Base.{
  ℕ, zero, suc, String, ◌<>◌, Bool, true, false, not, ◌&&◌, ◌||◌, Option, none, some, List, [], ◌∷◌,
  ltb, any, ◌==◌, str_eq, codes, byte_length, is_blank, trim_space, decimal, if◌then◌else◌,
}

pub record Interface : Type 0 where
  pub is_loopback : Bool
  pub is_up : Bool
  pub mac_address : String

pub record System : Type 0 where
  -- PERSYS_NODE_ID
  pub override : String
  pub hostname : Option String
  -- the text of /etc/machine-id
  pub machine_id_file : Option String
  pub interfaces : Option (List Interface)
  -- so many bytes of the SHA-256 digest of a text, in hexadecimal
  pub digest : ℕ → String → String

abbrev pub is_viable : Interface → Bool
is_viable i = not i.is_loopback && i.is_up

-- `getPrimaryMACAddress`, over the interfaces
unfoldable pub get_primary_mac_address : List Interface → Option String
get_primary_mac_address [] = none
get_primary_mac_address (i ∷ is) =
    let rest = get_primary_mac_address is in if is_viable i then some i.mac_address else rest

abbrev mac_of : Option (List Interface) → Option String
mac_of none = none
mac_of (some is) = get_primary_mac_address is

-- A text that was found and is not empty.
abbrev pub nonempty : Option String → Option String
nonempty none = none
nonempty (some s) = if is_blank s then none else some s

-- `readMachineID`
abbrev read_machine_id : Option String → Option String
read_machine_id none = none
read_machine_id (some s) = some (trim_space s)

abbrev hostname_or : Option String → String
hostname_or none = "unknown"
hostname_or (some h) = h

-- A prefix of at most so many characters, which a machine's identifier has in one byte each.
unfoldable pub first_chars : ℕ → String → String
first_chars zero s = ""
first_chars (suc n) String.[] = ""
first_chars (suc n) (String.◌∷◌ c s) = String.◌∷◌ c (first_chars n s)

-- The name, and whether it is unique.
pub record Named : Type 0 where
  pub node_id : String
  pub is_unique : Bool

module _ (sys : System) where
  abbrev pub by_mac : String → Option String → Named
  by_mac host none = record { node_id = host <> "-unknown"; is_unique = false }
  by_mac host (some mac) = record { node_id = host <> "-" <> sys.digest 6 mac; is_unique = true }

  abbrev pub by_machine : String → Option String → Named
  by_machine host none = by_mac host (nonempty (mac_of sys.interfaces))
  by_machine host (some id) = record {
    node_id = host <> "-" <> first_chars 12 id;
    is_unique = true;
  }

  -- `GenerateUniqueNodeID`
  unfoldable pub generate_unique_node_id : Named
  unfolding get_primary_mac_address first_chars
  generate_unique_node_id =
      if not (is_blank sys.override) && not (str_eq sys.override "auto")
      then record { node_id = sys.override; is_unique = true }
      else by_machine (hostname_or sys.hostname) (nonempty (read_machine_id sys.machine_id_file))

  -- `GetNodeIDHash`
  abbrev pub get_node_id_hash : String → String
  get_node_id_hash id = sys.digest 8 id

abbrev is_white : ℕ → Bool
is_white c = c == 32 || (c == 9 || (c == 10 || c == 13))

-- `ValidateNodeID`; the result is the error
unfoldable pub validate_node_id : String → Option String
validate_node_id id =
    if is_blank id
    then some "node ID cannot be empty"
    else if any is_white (codes id)
    then some ("node ID contains whitespace: " <> id)
    else if ltb 255 (byte_length id)
    then some ("node ID too long: " <> decimal (byte_length id) <> " (max 255)")
    else none
