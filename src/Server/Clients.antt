-- ===== src/Server/Clients.antt =====
-- The registered clients and the virtual printers (crates/devbridge-core/src/client_registration.rs,
-- virtual_printer.rs; their tables in crates/devbridge-server/src/storage.rs).
use devbridge.Common.{
  ℕ, String, ◌≡◌, Bool, true, false, not, ◌&&◌, Option, none, some, List, [], ◌∷◌, ◌==◌,
  if◌then◌else◌, is_some, string_eq, arith,
}
use devbridge.Common.Result.{Result, ok, err}
use devbridge.Common.Table.{find, insert, update, update_all, find-insert, find-update}

pub data PairingState : Type 0 where
  pending approved rejected : PairingState

pub record ClientRegistration : Type 0 where
  pub hostname : String
  pub printer_names : List String
  pub client_version : String
  pub last_seen : ℕ
  pub is_online : Bool
  pub pairing_state : PairingState
  pub virtual_printer_name : Option String
  pub virtual_printer_driver : Option String

pub record VirtualPrinter : Type 0 where
  pub display_name : String
  pub ipp_name : String
  pub paired_client_id : Option String
  pub driver : Option String
  pub created_at : ℕ
  pub updated_at : ℕ

abbrev pub default_windows_driver : String
default_windows_driver = "Microsoft IPP Class Driver"

abbrev pub value_or {ℓ} : {A : Type ℓ} → A → Option A → A
value_or d none = d
value_or d (some a) = a

unfoldable pub effective_driver : VirtualPrinter → String
effective_driver vp = value_or default_windows_driver vp.driver

-- `trim` is the text without the white space round it.
unfoldable pub takes_default_queue : (String → String) → ClientRegistration → Bool
takes_default_queue trim c = elim c.virtual_printer_driver [ none ↦ true | some d ↦ trim d == "" ]

-- Clients under their machine ids, printers under their ids.
pub record Registry : Type 0 where
  pub clients : List (String × ClientRegistration)
  pub virtual_printers : List (String × VirtualPrinter)

abbrev pub coalesce {ℓ} : {A : Type ℓ} → Option A → Option A → Option A
coalesce none b = b
coalesce (some a) b = some a

-- A reconnecting client keeps its pairing state.
abbrev pub reconnected : ClientRegistration → ClientRegistration → ClientRegistration
reconnected reg c = record c {
  hostname = reg.hostname;
  printer_names = reg.printer_names;
  client_version = reg.client_version;
  last_seen = reg.last_seen;
  is_online = reg.is_online;
  virtual_printer_name = coalesce reg.virtual_printer_name c.virtual_printer_name;
  virtual_printer_driver = coalesce reg.virtual_printer_driver c.virtual_printer_driver;
}

unfoldable pub get_client : String → Registry → Option ClientRegistration
get_client machine_id s = find machine_id s.clients

unfoldable pub upsert_client : String → ClientRegistration → Registry → Registry
upsert_client machine_id reg s =
    if is_some (find machine_id s.clients)
    then record s { clients = update machine_id (λ c. true) (reconnected reg) s.clients }
    else record s { clients = insert machine_id reg s.clients }

unfoldable pub set_client_online : ℕ → String → Bool → Registry → Registry
set_client_online now machine_id online s = record s {
  clients =
      update machine_id (λ c. true) (λ c. record c { is_online = online; last_seen = now })
        s.clients;
}

unfoldable pub touch_client : ℕ → String → Registry → Registry
touch_client now machine_id s = record s {
  clients =
      update machine_id (λ c. true) (λ c. record c { last_seen = now; is_online = true }) s.clients;
}

unfoldable pub set_all_clients_offline : Registry → Registry
set_all_clients_offline s = record s {
  clients = update_all (λ c. true) (λ c. record c { is_online = false }) s.clients;
}

abbrev found_or_error : Registry × Bool → Registry × Result (Unit {0})
found_or_error (s, true) = (s, ok tt)
found_or_error (s, false) = (s, err "not found")

unfoldable pub update_pairing_state :
    String → PairingState → Registry → Registry × Result (Unit {0})
update_pairing_state machine_id state s = found_or_error (
  record s {
    clients = update machine_id (λ c. true) (λ c. record c { pairing_state = state }) s.clients;
  },
  is_some (find machine_id s.clients),
)

abbrev named : String → List (String × VirtualPrinter) → Option VirtualPrinter
named ipp_name [] = none
named ipp_name ((id, vp) ∷ rows) = if vp.ipp_name == ipp_name then some vp else named ipp_name rows

unfoldable pub get_virtual_printer_by_ipp_name : String → Registry → Option VirtualPrinter
get_virtual_printer_by_ipp_name ipp_name s = named ipp_name s.virtual_printers

abbrev pub pairing_of : Option ClientRegistration → Option PairingState
pairing_of none = none
pairing_of (some c) = some c.pairing_state

-- A client that subscribes again keeps the pairing state that an administrator gave it; only a new
-- machine gets the state of its registration, and no other client's changes.
pub pairing-upsert_client :
    (j k : String) (reg : ClientRegistration) (s : Registry)
    → pairing_of (get_client j (upsert_client k reg s)) ≡ (
        if k == j && not (is_some (get_client j s))
        then some reg.pairing_state
        else pairing_of (get_client j s))
unfolding get_client upsert_client
pairing-upsert_client j k reg s = ground (
  arith,
  find-insert j k reg s.clients,
  find-update j k (λ c. true) (reconnected reg) s.clients,
  string_eq.beq_iff k j,
)
