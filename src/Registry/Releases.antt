-- ===== src/Registry/Releases.antt =====
-- What `registry_remove` of src/registry/registry.c gives back for a slot, by the kinds of effects.
use uringio.Base.{ℕ, ◌≡◌, refl, ap, false, Option, none, some, List, [], ◌∷◌, ◌++◌}
use uringio.Registry.{
  RequestSlot, Effect, decref, free_payload, free_memory, decref?, free_payload?, free?, releases,
}

-- The objects that lose a reference, the payloads that are freed without force, and the blocks of
-- memory that are freed, each as often and in the order of the effects.
abbrev pub decrefs : List Effect → List ℕ
decrefs [] = []
decrefs (decref x ∷ es) = x ∷ decrefs es
decrefs (e ∷ es) = decrefs es

abbrev pub payloads_freed : List Effect → List ℕ
payloads_freed [] = []
payloads_freed (free_payload p false ∷ es) = p ∷ payloads_freed es
payloads_freed (e ∷ es) = payloads_freed es

abbrev pub memory_freed : List Effect → List ℕ
memory_freed [] = []
memory_freed (free_memory p ∷ es) = p ∷ memory_freed es
memory_freed (e ∷ es) = memory_freed es

abbrev pub listed : Option ℕ → List ℕ
listed none = []
listed (some x) = x ∷ []

-- The future, the socket and the file lose a reference each, and the payload and the message header
-- are freed; the peer's address is not.
pub record GivesBack (s : RequestSlot) (es : List Effect) : Type 0 where
  pub objects : decrefs es ≡ listed s.future ++ (listed s.socket ++ listed s.file)
  pub payload : payloads_freed es ≡ listed s.buffer_payload
  pub header : memory_freed es ≡ listed s.msghdr

decrefs-decref :
    (x : Option ℕ) (es : List Effect) → decrefs (decref? x ++ es) ≡ listed x ++ decrefs es
decrefs-decref none es = refl
decrefs-decref (some x) es = refl

decrefs-free_payload :
    (x : Option ℕ) (es : List Effect) → decrefs (free_payload? x false ++ es) ≡ decrefs es
decrefs-free_payload none es = refl
decrefs-free_payload (some x) es = refl

decrefs-free : (x y : Option ℕ) → decrefs (decref? y ++ free? x) ≡ listed y
decrefs-free none none = refl
decrefs-free none (some y) = refl
decrefs-free (some x) none = refl
decrefs-free (some x) (some y) = refl

payloads_freed-decref :
    (x : Option ℕ) (es : List Effect) → payloads_freed (decref? x ++ es) ≡ payloads_freed es
payloads_freed-decref none es = refl
payloads_freed-decref (some x) es = refl

payloads_freed-free_payload :
    (x : Option ℕ) (es : List Effect)
    → payloads_freed es ≡ []
    → payloads_freed (free_payload? x false ++ es) ≡ listed x
payloads_freed-free_payload none es e = e
payloads_freed-free_payload (some x) es e = ap (λ (xs : List ℕ). x ∷ xs) e

payloads_freed-free : (x : Option ℕ) → payloads_freed (free? x) ≡ []
payloads_freed-free none = refl
payloads_freed-free (some x) = refl

memory_freed-decref :
    (x : Option ℕ) (es : List Effect) → memory_freed (decref? x ++ es) ≡ memory_freed es
memory_freed-decref none es = refl
memory_freed-decref (some x) es = refl

memory_freed-free_payload :
    (x : Option ℕ) (es : List Effect) → memory_freed (free_payload? x false ++ es) ≡ memory_freed es
memory_freed-free_payload none es = refl
memory_freed-free_payload (some x) es = refl

memory_freed-free : (x : Option ℕ) → memory_freed (free? x) ≡ listed x
memory_freed-free none = refl
memory_freed-free (some x) = refl

pub releases-GivesBack : (s : RequestSlot) → GivesBack s (releases s)
releases-GivesBack s = record {
  objects =
      rw
        (
          decrefs-decref s.future (
              free_payload? s.buffer_payload false
              ++ (decref? s.socket ++ (decref? s.file ++ free? s.msghdr))),
          decrefs-free_payload s.buffer_payload
              (decref? s.socket ++ (decref? s.file ++ free? s.msghdr)),
          decrefs-decref s.socket (decref? s.file ++ free? s.msghdr),
          decrefs-free s.msghdr s.file,
        )
        refl;
  payload =
      rw
        (payloads_freed-decref s.future (
          free_payload? s.buffer_payload false
          ++ (decref? s.socket ++ (decref? s.file ++ free? s.msghdr))))
        (payloads_freed-free_payload s.buffer_payload _ (
          rw
            (
              payloads_freed-decref s.socket (decref? s.file ++ free? s.msghdr),
              payloads_freed-decref s.file (free? s.msghdr),
            )
            (payloads_freed-free s.msghdr)));
  header =
      rw
        (
          memory_freed-decref s.future (
              free_payload? s.buffer_payload false
              ++ (decref? s.socket ++ (decref? s.file ++ free? s.msghdr))),
          memory_freed-free_payload s.buffer_payload
              (decref? s.socket ++ (decref? s.file ++ free? s.msghdr)),
          memory_freed-decref s.socket (decref? s.file ++ free? s.msghdr),
          memory_freed-decref s.file (free? s.msghdr),
        )
        (memory_freed-free s.msghdr);
}
