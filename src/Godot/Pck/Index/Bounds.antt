-- ===== src/Godot/Pck/Index/Bounds.antt =====
-- src/core/godot/pck.cpp: what the index of a pack promises.
use observer_modules.Prelude.{
  ℕ, suc, ◌+◌, ◌-◌, ◌≤◌, ◌≡◌, refl, ap, ◌||◌, List, [], ◌∷◌, take, drop, length, All, ltb, ◌==◌,
  if◌then◌else◌, arith, ltb-false, ||-eq-false,
}
use observer_modules.Prelude.Words.{from_le}
use observer_modules.Failure.{pck_error, Result, ok, throw}
use observer_modules.Failure.Ensures.{Ensures, Ensures-ok, Ensures-throw, Ensures-if}
use observer_modules.Stream.{BoundedStream, Istream, size}
use observer_modules.Stream.Ensures.{Ensures-reject, with_stream-Ensures}
use observer_modules.Stream.Fixed.{seek-Holds, read-Holds}
use observer_modules.Godot.Types.{sub_u64, ByteRange, PackLocation, PckEntry}
use observer_modules.Godot.Encrypted.{
  EncryptedPayload, max_u64, envelope_header_bytes, padded_size, read_envelope, encryption_errors,
  read_encrypted_payload, cipher_block_bytes,
}
use observer_modules.Godot.Pck.Entry.Bounds.{IsEntry}
use observer_modules.Godot.Pck.Index.{resolved, resolve_member, resolve_members}

-- An envelope lies in the range that it is looked for in, which lies in the stream.
read_envelope-Ensures :
    (source : ByteRange) (max : ℕ) (s : BoundedStream)
    → Ensures
        (λ (r : EncryptedPayload × BoundedStream).
          (r.0.envelope.offset ≡ source.offset)
          × (r.0.envelope.offset + r.0.envelope.size ≤ s.size))
        (read_envelope source max s)
unfolding read_envelope size
read_envelope-Ensures source max s =
    Ensures-reject (ltb s.size source.offset || ltb (s.size - source.offset) source.size) _ _ s
      λ inside. Ensures-reject (ltb source.size envelope_header_bytes) _ _ s λ long.
        seek-Holds source.offset _ s (record { same = refl; size = refl })
          λ s₁ h₁ e₁ b₁. read-Holds envelope_header_bytes _ s₁ h₁ λ header s₂ h₂ v₂ b₂ e₂.
            Ensures-reject
              (ltb max (from_le (take 8 (drop 16 header)))
                || ltb (max_u64 - (cipher_block_bytes - 1)) (from_le (take 8 (drop 16 header))))
              _ _ s₂
              λ bounded.
                Ensures-reject
                  (ltb (source.size - envelope_header_bytes)
                    (padded_size (from_le (take 8 (drop 16 header)))))
                  _ _ s₂
                  λ fits.
                    let (begins, ends) =
                      ||-eq-false (ltb s.size source.offset)
                        (ltb (s.size - source.offset) source.size) inside in
                    Ensures-ok (
                      omega (
                        arith,
                        ltb-false _ _ begins,
                        ltb-false _ _ ends,
                        ltb-false _ _ long,
                        ltb-false _ _ fits,
                      ))

encryption_errors-Ensures :
    {P : EncryptedPayload → Type 0} (r : Result EncryptedPayload)
    → Ensures P r
    → Ensures P (encryption_errors r)
unfolding encryption_errors
encryption_errors-Ensures r h = record { at = λ a e. h.at a (ground arith) }

pub read_encrypted_payload-Ensures :
    (stream : Istream) (source : ByteRange) (max : ℕ)
    → Ensures
        (λ (payload : EncryptedPayload).
          payload.envelope.offset + payload.envelope.size ≤ length stream.content)
        (read_encrypted_payload stream source max)
unfolding read_encrypted_payload
read_encrypted_payload-Ensures stream source max = encryption_errors-Ensures _ (
    with_stream-Ensures (read_envelope source max) stream λ s opened same. record {
      at = λ r e.
          omega
            (arith, (read_envelope-Ensures source max s).at r e, opened.measured, ap length same);
    })

resolve_member-Ensures :
    (location : PackLocation) (entry : PckEntry) (stream : Istream)
    → IsEntry (length stream.content) entry
    → Ensures (IsEntry (length stream.content)) (resolve_member location entry stream)
unfolding resolve_member
resolve_member-Ensures location entry stream h =
    Ensures-if (ltb location.pack.size (sub_u64 entry.body.offset location.pack.offset))
      (λ e. Ensures-throw _) λ e. go _ (read_encrypted_payload-Ensures stream _ max_u64)
  where
    go :
        (r : Result EncryptedPayload)
        → Ensures
            (λ (payload : EncryptedPayload).
              payload.envelope.offset + payload.envelope.size ≤ length stream.content)
            r
        → Ensures (IsEntry (length stream.content)) (elim r [
          | throw e ↦ throw e
          | ok payload ↦
              if payload.logical_size == entry.logical_size
              then ok (resolved entry payload)
              else throw (pck_error "encrypted member length disagrees with its directory entry")
        ])
    go (throw e) k = Ensures-throw e
    go (ok payload) k =
        Ensures-if (payload.logical_size == entry.logical_size)
          (λ e. Ensures-ok (record { inside = k.at payload refl; safe = h.safe; short = h.short }))
          λ e. Ensures-throw _

abbrev pub Resolved : Istream → List PckEntry → List PckEntry → Type 0
Resolved stream entries rest =
    All (IsEntry (length stream.content)) rest × (length rest ≡ length entries)

pub resolve_members-Ensures :
    (location : PackLocation) (stream : Istream) (entries : List PckEntry)
    → All (IsEntry (length stream.content)) entries
    → Ensures (Resolved stream entries) (resolve_members location stream entries)
unfolding resolve_members
resolve_members-Ensures location stream [] h = Ensures-ok (tt, refl)
resolve_members-Ensures location stream (entry ∷ entries) (h, hs) =
    go (if entry.encrypted then resolve_member location entry stream else ok entry)
      (Ensures-if entry.encrypted (λ e. resolve_member-Ensures location entry stream h)
        λ e. Ensures-ok h)
      (resolve_members location stream entries) (resolve_members-Ensures location stream entries hs)
  where
    go :
        (r : Result PckEntry)
        → Ensures (IsEntry (length stream.content)) r
        → (rs : Result (List PckEntry)) → Ensures (Resolved stream entries) rs
        → Ensures (Resolved stream (entry ∷ entries)) (elim r [
          | throw e ↦ throw e
          | ok resolved ↦ elim rs [ throw e ↦ throw e | ok rest ↦ ok (resolved ∷ rest) ]
        ])
    go (throw e) k rs ks = Ensures-throw e
    go (ok a) k (throw e) ks = Ensures-throw e
    go (ok a) k (ok rest) ks =
        let (within, count) = ks.at rest refl in Ensures-ok ((k.at a refl, within), ap suc count)
