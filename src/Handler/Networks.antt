-- ===== src/Handler/Networks.antt =====
-- dockerplugin/handler/mount.go: getStringSliceParam, isIPAddress and filterHostNetworks, whose request
-- has the options of the configuration file already.
use common_host_libs.Prelude.{
  ℕ, zero, suc, Bool, true, false, not, ◌&&◌, ◌||◌, List, [], ◌∷◌, ◌++◌, Option, none, some, String,
  map, lookup, length, get_elem?, set, take, leb, ltb, if◌then◌else◌,
}
use common_host_libs.Prelude.Int.{ℤ, pos, negsuc}
use common_host_libs.Prelude.Decimal.{atoi, split}
use common_host_libs.Prelude.Text.{Text, codes, text_eq, trim_space}
use common_host_libs.Model.{NetworkInterface}
use common_host_libs.Handler.{Value, string, parts, other, PluginRequest, Result, ok, err, panics}

unfoldable pub get_string_slice_param : String → List (String × Value) → Result (List Text)
get_string_slice_param name opts = elim (lookup name opts) [
  | none ↦
      err (codes "getStringParam: param name " ++ (codes name ++ codes " key not found in request"))
  | some (string s) ↦ ok (trim_space s ∷ [])
  | some (parts ss) ↦ ok (map trim_space ss)
  | some other ↦ err (codes "param name:" ++ (codes name ++ codes " is not a slice."))
]

abbrev pub is_octet : Option ℤ → Bool
is_octet (some (pos n)) = leb n 255
is_octet (some (negsuc n)) = false
is_octet none = false

abbrev pub all_octets : List Text → Bool
all_octets [] = true
all_octets (x ∷ xs) = is_octet (atoi x) && all_octets xs

unfoldable pub is_ip_address : Text → Bool
is_ip_address host =
    let octets = split b'.' host in not (ltb (length octets) 4) && all_octets octets

unfoldable pub matches : Text → NetworkInterface → Bool
matches initiator network =
    (is_ip_address initiator && text_eq (codes network.address_v4) initiator)
    || text_eq (codes network.name) initiator

-- The slice of the networks, which is changed in place, and the next place to write.
abbrev pub Networks : Type 0
Networks = List NetworkInterface × ℕ

-- The body of the inner loop; `none` is a write out of range.
abbrev pub kept : Text → NetworkInterface → Networks → Option Networks
kept initiator network (networks, index) =
    if matches initiator network
    then (if ltb index (length networks)
        then some (set networks index network, suc index)
        else none)
    else some (networks, index)

-- The inner loop from a place on, for as many networks as are left. It reads what it has written.
unfoldable pub visit : ℕ → ℕ → Text → Networks → Option Networks
visit zero place initiator s = some s
visit (suc left) place initiator s = elim (get_elem? s.0 place) [
  | none ↦ some s
  | some network ↦ elim (kept initiator network s) [
    | none ↦ none
    | some s' ↦ visit left (suc place) initiator s'
  ]
]

unfoldable pub visit_all : List Text → Networks → Option Networks
visit_all [] s = some s
visit_all (initiator ∷ initiators) s = elim (visit (length s.0) 0 initiator s) [
  | none ↦ none
  | some s' ↦ visit_all initiators s'
]

abbrev pub filtered : PluginRequest → Option Networks → Result PluginRequest
filtered r none = panics
filtered r (some (networks, index)) =
    ok (record r { host = record r.host { network_interfaces = take index networks } })

unfoldable pub filter_host_networks : PluginRequest → Result PluginRequest
filter_host_networks r = elim (lookup "initiators" r.opts) [
  | none ↦
      err (codes "initiators are not specified in the volume-driver.json file for mount request")
  | some v ↦ elim (get_string_slice_param "initiators" r.opts) [
    | err m ↦ err m
    | panics ↦ panics
    | ok initiators ↦ filtered r (visit_all initiators (r.host.network_interfaces, 0))
  ]
]
