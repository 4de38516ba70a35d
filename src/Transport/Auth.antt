-- ===== src/Transport/Auth.antt =====
-- cmd/sshcustomd/main.go: `attemptSSHAuth`, the login over a prepared connection. What the SSH library
-- makes of it is an argument.
use sshcustom_vpnchain.Base.{Option, none, some, List, map, if◌then◌else◌, is_empty, Bytes}
use sshcustom_vpnchain.Base.Res.{Res, ok, err}
use sshcustom_vpnchain.Base.Decimal.{itoa_int}
use sshcustom_vpnchain.Net.HostPort.{join_host_port}
use sshcustom_vpnchain.Profile.Data.{Profile}
use sshcustom_vpnchain.Transport.Open.{Way, Prepared, OpenError, open_prepared_ssh_conn}

-- The account that `attemptSSHAuth` signs in with: the user, the password, which is the user's name
-- where the profile has none, and the address that the host key would be checked for.
pub record Login : Type 0 where
  pub user : Bytes
  pub password : Bytes
  pub addr : Bytes

unfoldable pub login_of : Profile → Login
login_of p = record {
  user = p.ssh.username;
  password = if is_empty p.ssh.password then p.ssh.username else p.ssh.password;
  addr = join_host_port p.ssh.host (itoa_int p.ssh.port);
}

-- The answers of `KeyboardInteractive` to its questions.
abbrev pub answers : Profile → List Bytes → List Bytes
answers p questions = map (λ question. (login_of p).password) questions

pub data AuthError : Type 0 where
  not_prepared : OpenError → AuthError
  handshake_failed : Bytes → AuthError

signed_in : Option Bytes → Prepared → Res AuthError Prepared
signed_in none c = ok c
signed_in (some e) c = err (handshake_failed e)

authenticated :
    Profile → (Login → Prepared → Option Bytes) → Res OpenError Prepared → Res AuthError Prepared
unfolding signed_in login_of
authenticated p handshake (err e) = err (not_prepared e)
authenticated p handshake (ok c) = signed_in (handshake (login_of p) c) c

-- `attemptSSHAuth`, given how `NewClientConn` ends for the login: the connection of the client.
unfoldable pub attempt_ssh_auth :
    Profile → Way → (Login → Prepared → Option Bytes) → Res AuthError Prepared
unfolding authenticated
attempt_ssh_auth p w handshake = authenticated p handshake (open_prepared_ssh_conn p w)
