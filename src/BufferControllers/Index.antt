-- ===== src/BufferControllers/Index.antt =====
-- buffer_index.c: the free list of registered buffers.
pub mod Laws
pub mod Lending
mod Tests
use uringio.Base.{
  ℕ, suc, ℤ, pos, negsuc, pos_part, is_neg, pred_ℤ, suc_ℤ, leb_ℤ, to_int, Bool, true, false, Option,
  none, some, List, [], get_or, set, indices_from, ◌==◌, if◌then◌else◌,
}

-- `available_indices` holds the initialised entries of the array.
pub record FixedBufferIdxRegistry : Type 0 where
  pub available_indices : List ℤ
  pub top : ℤ
  pub size : ℕ

-- DEFAULT_BUFFER_IDX_REGISTRY_SIZE
abbrev pub default_size : ℕ
default_size = 128

-- The registry once the memory is there.
unfoldable pub fresh : ℕ → FixedBufferIdxRegistry
fresh size = record {
  available_indices = indices_from 0 (pos_part (to_int size));
  top = pred_ℤ (to_int size);
  size = size;
}

-- The flags say whether the first and the second allocation succeed.
unfoldable pub buffer_idx_registry_create : Bool → Bool → ℕ → Option FixedBufferIdxRegistry
unfolding fresh
buffer_idx_registry_create false array size = none
buffer_idx_registry_create true false size = none
buffer_idx_registry_create true true size = some (fresh (if size == 0 then default_size else size))

unfoldable pub buffer_idx_registry_destroy : FixedBufferIdxRegistry → FixedBufferIdxRegistry
buffer_idx_registry_destroy reg = record { available_indices = []; top = negsuc 0; size = 0 }

-- A read past the array is read as -1; `Laws.IsValid` rules it out.
unfoldable pub get_buffer_idx : FixedBufferIdxRegistry → ℤ × FixedBufferIdxRegistry
get_buffer_idx reg = if is_neg reg.top then (negsuc 0, reg) else (
  get_or reg.available_indices (pos_part reg.top) (negsuc 0),
  record reg { top = pred_ℤ reg.top },
)

unfoldable pub release_buffer_idx : FixedBufferIdxRegistry → ℤ → ℤ × FixedBufferIdxRegistry
release_buffer_idx reg index =
    if leb_ℤ (to_int reg.size) (suc_ℤ reg.top) then (negsuc 0, reg) else (
      pos 0,
      record reg {
        available_indices = set reg.available_indices (pos_part (suc_ℤ reg.top)) index;
        top = suc_ℤ reg.top;
      },
    )
