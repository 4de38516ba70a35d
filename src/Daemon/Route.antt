-- ===== src/Daemon/Route.antt =====
-- `routeInfo`, on what the kernel answers, and `routeSignature`, by which the loop tells one network
-- from another.
use sshcustom_vpnchain.Base.{
  true, false, not, ◌&&◌, ◌||◌, Option, none, some, List, [], ◌∷◌, ◌++◌, if◌then◌else◌, is_empty,
  any, Bytes, codes,
}
use sshcustom_vpnchain.Base.Text.{trim, trim_space, has_prefix}
use sshcustom_vpnchain.Net.HostPort.{split_host_port}
use sshcustom_vpnchain.Engine.State.{RouteInfo}

-- An interface of the phone: its name, and its addresses with their prefix lengths.
pub record NetInterface : Type 0 where
  pub name : Bytes
  pub addrs : List Bytes

-- The host of the local address; an error leaves it empty.
source_of : Option (Bytes × Bytes) → Bytes
source_of none = []
source_of (some (host, port)) = host

-- The first interface with an address that starts with the source.
interface_of : Bytes → List NetInterface → Bytes
interface_of src [] = []
interface_of src (i ∷ rest) =
    let later = interface_of src rest in
    if any (λ a. has_prefix a (src ++ codes "/") || has_prefix a src) i.addrs
      && not (is_empty i.name)
    then i.name
    else later

listed_or : Option (List NetInterface) → List NetInterface
listed_or none = []
listed_or (some interfaces) = interfaces

-- `routeInfo`: the local address of a UDP socket that is connected to 1.1.1.1:53, and the interfaces,
-- where the system lists them.
unfoldable pub route_info : Option Bytes → Option (List NetInterface) → RouteInfo
unfolding source_of interface_of listed_or
route_info none interfaces = record { online = false; raw = []; iface = []; gw = []; src = [] }
route_info (some laddr) interfaces =
    let src = source_of (split_host_port laddr) in
    let listed = listed_or interfaces in
    record {
      online = true;
      raw = laddr;
      iface = if is_empty src then [] else interface_of src listed;
      gw = [];
      src = src;
    }

-- `routeSignature`.
unfoldable pub route_signature : RouteInfo → Bytes
unfolding trim
route_signature ri =
    if not ri.online
    then codes "offline"
    else if not (is_empty (trim_space ri.iface))
    then trim_space ri.iface
    else codes "online"
