-- ===== src/Relay/Serve.antt =====
-- The panel's side of the relay: `ReadChunk` of core/internal/kernel/fetch.go and `HandleRelayRequest`
-- of core/internal/upgrade/upgrade.go.
use chiral.Prelude.{
  ℕ, ◌+◌, ◌-◌, Bool, false, String, List, [], Option, none, some, leb, ltb, if◌then◌else◌, str_eq,
  length, take, drop,
}
use chiral.Prelude.Int.{ℤ, pos, negsuc}
use chiral.Prelude.Maps.{Map, lookup}
use chiral.Version.{normalize_version}
use chiral.Upgrade.Rows.{XrayInstall, Node, get_node}

-- Why the panel refuses a request.
pub data Refusal : Type 0 where
  no_install : Refusal
  other_version : String → String → Refusal
  unknown_platform no_archive : Refusal
  outside : ℤ → ℕ → Refusal

abbrev pub at_most : ℕ → ℕ → ℕ
at_most n remaining = if ltb remaining n then remaining else n

pub data Read : Type 0 where
  read : List ℕ → Bool → Read
  unread : Refusal → Read

-- The bytes at an offset that is inside the archive.
abbrev pub read_at : List ℕ → ℕ → ℕ → Read
read_at archive off n =
    let bytes = take (at_most n (length archive - off)) (drop off archive) in
    read bytes (leb (length archive) (off + length bytes))

-- `ReadChunk`
unfoldable pub read_chunk : List ℕ → ℤ → ℕ → Read
read_chunk archive (negsuc k) n = unread (outside (negsuc k) (length archive))
read_chunk archive (pos off) n =
    if ltb (length archive) off
    then unread (outside (pos off) (length archive))
    else read_at archive off n

-- `XrayChunk`
pub record Chunk : Type 0 where
  pub version : String
  pub offset : ℤ
  pub bytes : List ℕ
  pub last : Bool
  pub error : Option Refusal

abbrev pub fail : String → ℤ → Refusal → Chunk
fail version offset why = record {
  version = version;
  offset = offset;
  bytes = [];
  last = false;
  error = some why;
}

abbrev pub reply : String → ℤ → Read → Chunk
reply version offset (read bytes last) = record {
  version = version;
  offset = offset;
  bytes = bytes;
  last = last;
  error = none;
}
reply version offset (unread why) = fail version offset why

-- `relayChunkSize`
abbrev pub relay_chunk_size : ℕ
relay_chunk_size = 262144

-- The tables that a request is checked against, and `EnsureArchive`: the verified archive of a version
-- for a platform, from an address, with a checksum.
pub record Panel : Type 0 where
  pub installs : Map XrayInstall
  pub nodes : List Node
  pub ensure_archive : String → String → String → String → Option (List ℕ)

unfoldable pub serve_archive : String → ℤ → Option (List ℕ) → Chunk
unfolding read_chunk
serve_archive version offset none = fail version offset no_archive
serve_archive version offset (some archive) =
    reply version offset (read_chunk archive offset relay_chunk_size)

unfoldable pub serve_node : Panel → String → ℤ → XrayInstall → Option Node → Chunk
unfolding serve_archive
serve_node p version offset install none = fail version offset unknown_platform
serve_node p version offset install (some n) =
    if str_eq n.platform ""
    then fail version offset unknown_platform
    else serve_archive version offset
        (p.ensure_archive version n.platform install.download_url install.sha256)

unfoldable pub serve_install : Panel → String → String → ℤ → Option XrayInstall → Chunk
unfolding serve_node
serve_install p node_id version offset none = fail version offset no_install
serve_install p node_id version offset (some install) =
    if str_eq install.version version
    then serve_node p version offset install (get_node node_id p.nodes)
    else fail version offset (other_version install.version version)

-- `HandleRelayRequest`: the frame that it sends to the node.
unfoldable pub handle_relay_request : Panel → String → String → ℤ → Chunk
unfolding serve_install
handle_relay_request p node_id asked offset =
    serve_install p node_id (normalize_version asked) offset (lookup node_id p.installs)
