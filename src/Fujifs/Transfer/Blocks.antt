-- ===== src/Fujifs/Transfer/Blocks.antt =====
-- What `fujifs_read` takes from a device, block by block.
use fujinet_msdos.Base.{
  ℕ, zero, suc, ◌≤◌, ◌<◌, ◌≡◌, refl, sym, ap, ◌∙◌, true, false, not, ◌&&◌, [], ◌∷◌, ◌++◌, Bytes,
  arith, ltb, leb, ◌==◌, if◌then◌else◌, take, drop, length, length-take, take-append, ◌||◌, if_rule,
  ==_iff,
}
use fujinet_msdos.Base.Words.{get_u16le}
use fujinet_msdos.Fujifs.{
  FujiBus, Fuji, netdev, netdev_total, fields_none, fields_b12, reply_complete, network_success,
  is_connected, read_status, status_length, status_error,
}
use fujinet_msdos.Fujifs.Transfer.{fujifs_read, fujifs_write}

-- The device of a handle has so much left to read: its status tells how many bytes it has ready, some while
-- there are any, and a read of no more than are left takes them.
pub record Serves {W : Type 0} (bus : FujiBus W) (x : ℕ) (remaining : W → Bytes) : Type 0 where
  pub status_keeps :
      (w : W) (status : Bytes)
      → remaining (bus.read_call w (netdev x) b'S' fields_none 0 0 4 status).2 ≡ remaining w
  pub status_within :
      (w : W) (status : Bytes)
      → get_u16le (bus.read_call w (netdev x) b'S' fields_none 0 0 4 status).1 0
        ≤ length (remaining w)
  pub status_some :
      (w : W) (status : Bytes)
      → get_u16le (bus.read_call w (netdev x) b'S' fields_none 0 0 4 status).1 0 ≡ 0
      → remaining w ≡ []
  pub block_complete :
      (w : W) (k : ℕ) (buffer : Bytes)
      → k ≤ length (remaining w)
      → (bus.read_call w (netdev x) b'R' fields_b12 k 0 k buffer).0 ≡ reply_complete
  pub block_is :
      (w : W) (k : ℕ) (buffer : Bytes)
      → k ≤ length (remaining w)
      → take k (bus.read_call w (netdev x) b'R' fields_b12 k 0 k buffer).1 ≡ take k (remaining w)
  pub block_taken :
      (w : W) (k : ℕ) (buffer : Bytes)
      → k ≤ length (remaining w)
      → remaining (bus.read_call w (netdev x) b'R' fields_b12 k 0 k buffer).2 ≡ drop k (remaining w)

pub take-append-drop : (n : ℕ) (xs : Bytes) → take n xs ++ drop n xs ≡ xs
take-append-drop zero xs = refl
take-append-drop (suc n) [] = refl
take-append-drop (suc n) (x ∷ xs) = ap (◌∷◌ x) (take-append-drop n xs)

module _ {W : Type 0} (bus : FujiBus W) (x : ℕ) (remaining : W → Bytes)
    (serves : Serves bus x remaining) where
  -- What a read of the network file gives.
  pub record Block (s : Fuji W) (r : ℕ × Bytes × Fuji W) : Type 0 where
    pub split : remaining s.world ≡ take r.0 r.1 ++ remaining r.2.world
    pub length_is : length (take r.0 r.1) ≡ r.0
    pub ends : r.0 ≡ 0 → remaining s.world ≡ []
    pub connected : is_connected r.2 x ≡ true

  pub fujifs_read-Block :
      (s : Fuji W) (buf : Bytes) (count : ℕ)
      → is_connected s x ≡ true
      → 1 ≤ count
      → Block s (fujifs_read bus x buf count s)
  unfolding fujifs_read read_status is_connected
  fujifs_read-Block s buf count conn some_count =
      let status = bus.read_call s.world (netdev x) b'S' fields_none 0 0 4 s.status in
      let n = get_u16le status.1 0 in
      let keeps = serves.status_keeps s.world s.status in
      let within = serves.status_within s.world s.status in
      let k = if ltb n count then n else count in
      let k_le : k ≤ length (remaining status.2) = rw keeps (ground arith) in
      let block = bus.read_call status.2 (netdev x) b'R' fields_b12 k 0 k buf in
      let complete =
        (==_iff block.0 reply_complete).1 (serves.block_complete status.2 k buf k_le) in
      let whole = take-append-drop k (remaining status.2) in
      let connected : not (is_connected s x) ≡ false = rw conn refl in
      if_rule (Block s) (not (is_connected s x)) _ _ (λ off. absurd (cc))
        (λ on.
          if_rule (Block s)
            (ltb network_success (status_error (read_status bus x s))
              && (status_length (read_status bus x s) == 0))
            _ _
            (λ over. record {
              split = sym keeps;
              length_is = refl;
              ends = λ z. serves.status_some s.world s.status (ground arith);
              connected = conn;
            })
            (λ more. rw complete (record {
              split =
                  sym keeps
                  ∙ sym whole
                  ∙ (ap (λ t. t ++ drop k (remaining status.2))
                        (sym (serves.block_is status.2 k buf k_le))
                      ∙ ap (λ t. take k block.1 ++ t)
                          (sym (serves.block_taken status.2 k buf k_le)));
              length_is =
                  rw (serves.block_is status.2 k buf k_le)
                    (omega (arith, length-take k (remaining status.2)));
              ends = λ z. serves.status_some s.world s.status (ground arith);
              connected = conn;
            })))

-- The device of a handle takes what is written to it, and keeps it when the handle is closed.
pub record Takes {W : Type 0} (bus : FujiBus W) (x : ℕ) (stored : W → Bytes) : Type 0 where
  pub write_complete :
      (w : W) (content : Bytes)
      → (bus.write_call w (netdev x) b'W' fields_b12 (length content) 0 content).0 ≡ reply_complete
  pub write_is :
      (w : W) (content : Bytes)
      → stored (bus.write_call w (netdev x) b'W' fields_b12 (length content) 0 content).1
        ≡ stored w ++ content
  pub close_keeps : (w : W) → stored (bus.none_call w (netdev x) b'C').1 ≡ stored w

-- A write of what the buffer begins with.
module _ {W : Type 0} (bus : FujiBus W) (x : ℕ) (stored : W → Bytes)
    (takes : Takes bus x stored) where
  pub fujifs_write-Taken :
      (s : Fuji W) (block rest : Bytes)
      → 1 ≤ x
      → x < netdev_total
      → length block < 65535
      → ((fujifs_write bus x (block ++ rest) (length block) s).0 ≡ length block)
        × (stored (fujifs_write bus x (block ++ rest) (length block) s).1.world
            ≡ stored s.world ++ block)
  unfolding fujifs_write
  fujifs_write-Taken s block rest some_x few_x short =
      let whole : (if length block == 65535 then 65534 else length block) ≡ length block =
        ground arith in
      let open_x : (ltb x 1 || leb netdev_total x) ≡ false = ground arith in
      let complete = (==_iff _ reply_complete).1 (takes.write_complete s.world block) in
      rw (whole, take-append block rest, open_x, complete) (refl, takes.write_is s.world block)
