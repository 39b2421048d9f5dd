-- ===== src/Relay/Examples.antt =====
-- The relay on concrete inputs: each reply comes after a leftover of another version.
use chiral.Prelude.{ℕ, ◌≡◌, refl, true, false, List, [], ◌∷◌, none, some, str_ne}
use chiral.Prelude.Int.{pos}
use chiral.Prelude.Text.{trim_space, trim_left, trim_right, trim_prefix, is_space}
use chiral.Version.{normalize_version}
use chiral.Upgrade.Rows.{XrayInstall, Node, downloading}
use chiral.Relay.Serve.{
  Chunk, Panel, other_version, serve_archive, serve_node, serve_install, handle_relay_request,
}
use chiral.Relay.Transfer.{
  Wait, timed_out, await, chunk, relay_loop, downloaded, download_failed, empty_chunk,
  download_via_relay,
}
use chiral.Relay.Whole.{Brings, Offers, download_via_relay-handle_relay_request}

abbrev told : XrayInstall
told = record {
  node_id = "n";
  version = "1.2.3";
  download_url = "https://a.example/x.zip";
  sha256 = "ab";
  activate = true;
  phase = downloading;
  message = "";
  started_at = 0;
  updated_at = 0;
}

abbrev arm : Node
arm = record {
  id = "n";
  name = "tokyo";
  platform = "linux/arm64";
  xray_version = "1.0.0";
  xray_installed_version = "1.0.0";
}

abbrev bytes : List ℕ
bytes = 80 ∷ 75 ∷ 3 ∷ []

abbrev panel : Panel
panel = record {
  installs = ("n", told) ∷ [];
  nodes = arm ∷ [];
  ensure_archive = λ _ _ _ _. some bytes;
}

abbrev leftover : Chunk
leftover = record { version = "1.1.0"; offset = pos 0; bytes = 9 ∷ []; last = true; error = none }

abbrev waits : ℕ → Wait
waits off = record {
  sent = true;
  frames = leftover ∷ handle_relay_request panel "n" "1.2.3" (pos off) ∷ [];
  ending = timed_out;
}

-- A panel that ends nothing and sends nothing is given up.
silent :
    download_via_relay 5
      (λ off. record {
        sent = true;
        frames =
            record { version = "1.2.3"; offset = pos off; bytes = []; last = false; error = none }
            ∷ [];
        ending = timed_out;
      })
      "1.2.3"
    ≡ download_failed (empty_chunk 0)
unfolding download_via_relay relay_loop chunk await
silent = refl

not_told :
    (handle_relay_request panel "n" "v9.9.9" (pos 0)).error ≡ some (other_version "1.2.3" "9.9.9")
unfolding handle_relay_request serve_install serve_node serve_archive normalize_version trim_space
    trim_left trim_right trim_prefix is_space
not_told = refl

offered : Offers panel "n" "1.2.3" bytes
unfolding normalize_version trim_space trim_left trim_right trim_prefix is_space
offered = record {
  canonical = refl;
  install = told;
  node = arm;
  told = refl;
  same = refl;
  known = refl;
  platform = str_ne "linux/arm64" "" refl;
  obtained = refl;
}

brought :
    (off : ℕ) → Brings "1.2.3" off (handle_relay_request panel "n" "1.2.3" (pos off)) (waits off)
brought off = record {
  sent = refl;
  stale = leftover ∷ [];
  later = [];
  other = (refl, tt);
  frames = refl;
}

download_via_relay-handle_relay_request_example :
    download_via_relay 4 waits "1.2.3" ≡ downloaded bytes
download_via_relay-handle_relay_request_example =
    download_via_relay-handle_relay_request panel "n" "1.2.3" bytes waits offered brought
