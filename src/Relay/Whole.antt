-- ===== src/Relay/Whole.antt =====
-- The two sides of the relay together.
use chiral.Prelude.{
  ℕ, zero, suc, ◌+◌, ◌-◌, ◌≤◌, ◌<◌, ◌≡◌, ◌≢◌, refl, sym, ◌∙◌, ap, Bool, true, false, String, List,
  [], ◌∷◌, ◌++◌, some, arith, inl, inr, leb, ltb, Bool-cases, eq_iff, str_eq, ne→str_ne, subst,
  length, take, drop, All, append_assoc, take-append-drop, length-take, length-drop, take-length,
  drop-length-append, length-append,
}
use chiral.Prelude.Int.{ℤ, pos}
use chiral.Prelude.Maps.{lookup}
use chiral.Version.{normalize_version}
use chiral.Upgrade.Rows.{XrayInstall, Node, get_node}
use chiral.Relay.Serve.{
  read, at_most, read_chunk, Chunk, reply, relay_chunk_size, Panel, serve_archive, serve_node,
  serve_install, handle_relay_request,
}
use chiral.Relay.Transfer.{
  Wait, got, is_reply, await, chunk, Download, downloaded, after, relay_loop, download_via_relay,
}

-- The wait of a request brings a frame, perhaps after frames that reply to other requests.
pub record Brings (version : String) (offset : ℕ) (c : Chunk) (w : Wait) : Type 0 where
  pub sent : w.sent ≡ true
  pub stale : List Chunk
  pub later : List Chunk
  pub other : All (λ s. is_reply version offset s ≡ false) stale
  pub frames : w.frames ≡ stale ++ (c ∷ later)

await-append :
    (version : String) (offset : ℕ) (stale rest : List Chunk) (w : Wait)
    → All (λ s. is_reply version offset s ≡ false) stale
    → await version offset (stale ++ rest) w.ending ≡ await version offset rest w.ending
unfolding await
await-append version offset [] rest w h = refl
await-append version offset (c ∷ stale) rest w (hc, h) =
    rw hc (await-append version offset stale rest w h)

await-reply :
    (version : String) (offset : ℕ) (bytes : List ℕ) (last : Bool) (later : List Chunk) (w : Wait)
    → await version offset (reply version (pos offset) (read bytes last) ∷ later) w.ending
      ≡ got bytes last
unfolding await
await-reply version offset bytes last later w = ground (arith, eq_iff version version)

chunk-Brings :
    (version : String) (offset : ℕ) (bytes : List ℕ) (last : Bool) (w : Wait)
    → Brings version offset (reply version (pos offset) (read bytes last)) w
    → chunk version offset w ≡ got bytes last
unfolding chunk
chunk-Brings version offset bytes last w b =
    let c = reply version (pos offset) (read bytes last) in
    rw (b.sent) (
      ap (λ l. await version offset l w.ending) b.frames
      ∙ await-append version offset b.stale (c ∷ b.later) w b.other
      ∙ await-reply version offset bytes last b.later w)

read_chunk-inside :
    (front back : List ℕ) (n : ℕ)
    → read_chunk (front ++ back) (pos (length front)) n
      ≡ read (take (at_most n (length back)) back) (leb (length back) n)
unfolding read_chunk
read_chunk-inside front back n =
    let k = at_most n (length back) in
    let size = length-append front back in
    let k_le : k ≤ length back = ground arith in
    let at : length (front ++ back) - length front ≡ length back = omega (arith, size) in
    let past : ltb (length (front ++ back)) (length front) ≡ false = ground (arith, size) in
    let bytes : take (at_most n (length (front ++ back) - length front))
          (drop (length front) (front ++ back))
        ≡ take k back =
      rw (at, drop-length-append front back) refl in
    let len = length-take k back k_le in
    rw past (rw bytes (ap (read (take k back)) (ground (arith, len, size))))

after_more :
    (again : ℕ → List ℕ → Download) (offset : ℕ) (written bytes : List ℕ)
    → 0 < length bytes
    → after again offset written (got bytes false)
      ≡ again (offset + length bytes) (written ++ bytes)
after_more again offset written [] h = absurd (omega arith)
after_more again offset written (b ∷ bytes) h = refl

module _ (version : String) (waits : ℕ → Wait) (archive : List ℕ) (n : ℕ) (some_size : 0 < n) where
  abbrev Serves : Type 0
  Serves =
      (off : ℕ)
      → Brings version off (reply version (pos off) (read_chunk archive (pos off) n)) (waits off)

  -- Each round but the last writes something, so fuel beyond what is missing is enough.
  relay_loop-Serves :
      (fuel : ℕ) (front back : List ℕ)
      → Serves
      → archive ≡ front ++ back
      → length back < fuel
      → relay_loop fuel waits version (length front) front ≡ downloaded archive
  unfolding relay_loop
  relay_loop-Serves zero front back s e h = absurd (omega arith)
  relay_loop-Serves (suc fuel) front back s e h =
      let off = length front in
      let k = at_most n (length back) in
      let bytes = take k back in
      let read_here = ap (λ a. read_chunk a (pos off) n) e ∙ read_chunk-inside front back n in
      let answer : chunk version off (waits off) ≡ got bytes (leb (length back) n) =
        chunk-Brings version off bytes (leb (length back) n) (waits off) (
          subst (λ r. Brings version off (reply version (pos off) r) (waits off)) read_here
            (s off)) in
      let step = ap (after (relay_loop fuel waits version) off front) answer in
      elim (Bool-cases (leb (length back) n)) [
        | inl last ↦
            let whole : bytes ≡ back =
              ap (λ m. take m back) (ground (arith, last)) ∙ take-length back in
            step
            ∙ ap (λ b. after (relay_loop fuel waits version) off front (got bytes b)) last
            ∙ ap downloaded (ap (◌++◌ front) whole ∙ sym e)
        | inr more ↦
            let k_is : k ≡ n = ground (arith, more) in
            let some_bytes : length bytes ≡ n = length-take k back (ground (arith, more)) ∙ k_is in
            let rest = drop k back in
            let left = length-drop k back in
            let missing : length rest < fuel = ground (arith, left, k_is, more) in
            step
            ∙ ap (λ b. after (relay_loop fuel waits version) off front (got bytes b)) more
            ∙ after_more (relay_loop fuel waits version) off front bytes (omega (arith, some_bytes))
            ∙ ap (λ o. relay_loop fuel waits version o (front ++ bytes))
                (sym (length-append front bytes))
            ∙ relay_loop-Serves fuel (front ++ bytes) rest s
                (e
                  ∙ ap (◌++◌ front) (sym (take-append-drop k back))
                  ∙ sym (append_assoc front bytes rest))
                missing
      ]

-- The panel has an install of the version to send the node to, and can get the node's archive.
pub record Offers (p : Panel) (node_id version : String) (archive : List ℕ) : Type 0 where
  pub canonical : normalize_version version ≡ version
  pub install : XrayInstall
  pub node : Node
  pub told : lookup node_id p.installs ≡ some install
  pub same : install.version ≡ version
  pub known : get_node node_id p.nodes ≡ some node
  pub platform : node.platform ≢ ""
  pub obtained :
      p.ensure_archive version node.platform install.download_url install.sha256 ≡ some archive

pub handle_relay_request-Offers :
    (p : Panel) (node_id version : String) (archive : List ℕ) (offset : ℤ)
    → Offers p node_id version archive
    → handle_relay_request p node_id version offset
      ≡ reply version offset (read_chunk archive offset relay_chunk_size)
unfolding handle_relay_request serve_install serve_node serve_archive
handle_relay_request-Offers p node_id version archive offset o =
    let same_version : str_eq o.install.version version ≡ true =
      (eq_iff o.install.version version).1 o.same in
    let there : str_eq o.node.platform "" ≡ false = ne→str_ne o.node.platform "" o.platform in
    rw (o.canonical)
      (rw (o.told) (rw same_version (rw (o.known) (rw there (rw (o.obtained) refl)))))

-- Where a node was told to install a version and the panel gets the archive for its platform, and where
-- each request is sent and its reply arrives, what the agent downloads is that archive, byte for byte,
-- and the transfer ends: within one round more than the archive has bytes, whatever replies to other
-- requests arrive before and after.
pub download_via_relay-handle_relay_request :
    (p : Panel) (node_id version : String) (archive : List ℕ) (waits : ℕ → Wait)
    → Offers p node_id version archive
    → ((off : ℕ)
        → Brings version off (handle_relay_request p node_id version (pos off)) (waits off))
    → download_via_relay (suc (length archive)) waits version ≡ downloaded archive
unfolding download_via_relay
download_via_relay-handle_relay_request p node_id version archive waits o b =
    relay_loop-Serves version waits archive relay_chunk_size (omega arith) (suc (length archive)) []
      archive
      (λ off.
        subst (λ c. Brings version off c (waits off))
          (handle_relay_request-Offers p node_id version archive (pos off) o) (b off))
      refl (omega arith)
