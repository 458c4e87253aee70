-- ===== src/SelfPair/Reuse.antt =====
-- A stored key is used or rejected, never replaced.
use a6_core.Prelude.{String, some, ◌≡◌, ◌≢◌, ◌⊎◌, trim_space}
use a6_core.SelfPair.{
  KeyFile, missing, unreadable, contents, get_info, Reply, Core, Written, whole, left, read_failed,
  write_failed, Ensured, key, error, Shell, send, device_name,
}

-- The server made the key for this shell.
abbrev pub IsPaired : Core → String → Type 0
IsPaired core k =
    (token : String) × (reply : Reply) × (core.pair token device_name ≡ some reply)
    × (reply.status ≡ 200)
    × (reply.field ≡ some k)
    × (k ≢ "")

-- A key came out of pairing and is in the file; or the file is as it was, or holds what a write left that
-- failed.
abbrev pub PairEnds : Core → Written → Shell → Ensured × Shell → Type 0
PairEnds core w s (key k, t) = IsPaired core k × (w ≡ whole) × (t.file ≡ contents k)
PairEnds core w s (error e, t) =
    (t.file ≡ s.file)
    ⊎ ((text : String) × (w ≡ left text) × (e ≡ write_failed) × (t.file ≡ contents text))

-- what a stored key comes to: no request but to validate it
abbrev pub StoredEnds : Core → String → Shell → Ensured × Shell → Type 0
StoredEnds core text s (key k, t) =
    (k ≡ trim_space text) × (k ≢ "") × (core.info k ≡ some 200) × (t ≡ send (get_info k) s)
StoredEnds core text s (error e, t) =
    (t.file ≡ s.file) × ((t ≡ s) ⊎ (t ≡ send (get_info (trim_space text)) s))

abbrev pub EnsureEnds : Core → Written → KeyFile → Shell → Ensured × Shell → Type 0
EnsureEnds core w (contents text) s r = StoredEnds core text s r
EnsureEnds core w unreadable s r = r ≡ (error read_failed, s)
EnsureEnds core w missing s r = PairEnds core w s r

-- A pairing that answers a key was redeemed for it.
abbrev Redeems : Core → Shell → Ensured × Shell → Type 0
Redeems core s (key k, t) = IsPaired core k × (t.file ≡ s.file)
Redeems core s (error e, t) = t.file ≡ s.file
