-- ===== src/Profile/Data.antt =====
-- cmd/sshcustomd/main.go: profiles and what they hold, and the request that saves one.
use sshcustom_vpnchain.Base.{Bool, Option, List, ℤ, Bytes}

pub record Ssh : Type 0 where
  pub host : Bytes
  pub port : ℤ
  pub username : Bytes
  pub password : Bytes
  pub auth_type : Bytes
  pub fallback_ips : List Bytes

pub record HttpProxyCfg : Type 0 where
  pub host : Bytes
  pub port : ℤ
  pub connect_method : Bytes
  pub fallback_ips : List Bytes

pub record TlsCfg : Type 0 where
  pub enabled : Bool
  pub server_name : Bytes
  pub insecure_skip_verify : Bool
  pub alpn : List Bytes

pub record PayloadCfg : Type 0 where
  pub enabled : Bool
  pub template : Bytes
  pub send_timing : Bytes
  pub read_response : Bool
  pub allow_statuses : List ℤ

pub record TConf : Type 0 where
  pub mode : Bytes
  pub chain : List Bytes
  pub http_proxy : Option HttpProxyCfg
  pub tls : Option TlsCfg
  pub payload : PayloadCfg

pub record Profile : Type 0 where
  pub id : Bytes
  pub name : Bytes
  pub selected : Bool
  pub ssh : Ssh
  pub transport : TConf

pub record ProfilesFile : Type 0 where
  pub selected_id : Bytes
  pub profiles : List Profile

pub record SaveProfileRequest : Type 0 where
  pub id : Bytes
  pub name : Bytes
  pub select : Bool
  pub restart : Bool
  pub ssh : Ssh
  pub mode : Bytes
  pub http_proxy : Option HttpProxyCfg
  pub tls : Option TlsCfg
  pub payload : PayloadCfg
