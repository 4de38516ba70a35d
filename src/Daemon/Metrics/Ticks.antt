-- ===== src/Daemon/Metrics/Ticks.antt =====
-- The ticks of the process.
use sshcustom_vpnchain.Base.{
  ◌≡◌, refl, ap, ◌∙◌, false, some, [], ◌∷◌, ◌++◌, arith, leb, length, Bytes,
}
use sshcustom_vpnchain.Net.HostPort.{has_byte}
use sshcustom_vpnchain.Net.HostPort.Joined.{cut_last-append}
use sshcustom_vpnchain.Transport.{fields_onto}
use sshcustom_vpnchain.Daemon.Metrics.{ticks_of, behind_name, read_process_cpu_ticks}

behind-space :
    (before rest : Bytes)
    → behind_name (some (before, b' ' ∷ rest)) ≡ ticks_of (fields_onto [] rest)
unfolding fields_onto
behind-space before [] = refl
behind-space before (c ∷ rest) =
    let longer : leb (length (b' ' ∷ c ∷ rest)) 1 ≡ false = ground arith in rw longer refl

-- The name of a process cannot mislead `readProcessCPUTicks`: whatever bytes stand before the last `)`
-- of /proc/self/stat, spaces and parentheses among them, the ticks are those of the fields behind it.
pub read_process_cpu_ticks-name :
    (name rest : Bytes)
    → has_byte b')' rest ≡ false
    → read_process_cpu_ticks (some (name ++ (b')' ∷ b' ' ∷ rest))) ≡ ticks_of (fields_onto [] rest)
unfolding read_process_cpu_ticks
read_process_cpu_ticks-name name rest h =
    ap behind_name (cut_last-append b')' name (b' ' ∷ rest) h) ∙ behind-space name rest
