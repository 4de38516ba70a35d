-- ===== src/Config/Data.antt =====
-- The struct `Config`: its anonymous structs are records of their own.
use sshcustom_vpnchain.Base.{Bool, List, ℤ, Bytes}

pub record Module : Type 0 where
  pub name : Bytes
  pub work_dir : Bytes
  pub log_dir : Bytes
  pub manual_start : Bool

pub record Api : Type 0 where
  pub enabled : Bool
  pub host : Bytes
  pub port : ℤ

pub record Dns : Type 0 where
  pub enabled : Bool
  pub mode : Bytes
  pub servers : List Bytes
  pub timeout_sec : ℤ

pub record LocalProxy : Type 0 where
  pub socks_enabled : Bool
  pub socks_host : Bytes
  pub socks_port : ℤ

pub record TransparentProxy : Type 0 where
  pub enabled : Bool
  pub tcp_port : ℤ
  pub udp_port : ℤ
  pub udpgw_port : ℤ
  pub chains_prefix : Bytes

pub record UdpProxy : Type 0 where
  pub enabled : Bool
  pub udpgw_port : ℤ

pub record Hotspot : Type 0 where
  pub enabled : Bool
  pub tcp : Bool
  pub dns : Bool
  pub interfaces : List Bytes

pub record Performance : Type 0 where
  pub buffer_size : ℤ
  pub connect_timeout_sec : ℤ
  pub keep_alive_sec : ℤ
  pub ssh_pool_size : ℤ
  pub max_streams_per_ssh : ℤ
  pub stream_idle_timeout_sec : ℤ
  pub stream_acquire_timeout_sec : ℤ
  pub verbose_transparent_logs : Bool
  pub retry_initial_delay_sec : ℤ
  pub retry_max_delay_sec : ℤ
  pub read_probe_timeout_sec : ℤ

pub record Config : Type 0 where
  pub module_info : Module
  pub api : Api
  pub dns : Dns
  pub supported_modes : List Bytes
  pub local_proxy : LocalProxy
  pub transparent_proxy : TransparentProxy
  pub udp_proxy : UdpProxy
  pub hotspot : Hotspot
  pub performance : Performance
