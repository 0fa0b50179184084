-- ===== src/Bo/VaOp.antt =====
-- Mapping a buffer object into the GPU's address space: `amdgpu_bo_va_op` and `amdgpu_bo_va_op_raw`.
use libdrm.Base.{
  ℕ, ◌+◌, ◌≤◌, ◌^◌, ◌≡◌, refl, sym, Bool, ◌||◌, ◌&&◌, leb, Bool-cases, inl, inr, Option, none, some,
  if◌then◌else◌, ◌==◌, align64, IsPow2, arith, RoundsUp, align64-RoundsUp, Ret, err, einval,
}
use libdrm.Bo.State.{Bo}

-- The arguments of AmdgpuBoVaOpRaw.
pub record VaRequest : Type 0 where
  pub bo_handle : ℕ
  pub offset : ℕ
  pub size : ℕ
  pub addr : ℕ
  pub flags : ℕ
  pub ops : ℕ

-- AMDGPU_VA_OP_MAP, _UNMAP, _CLEAR and _REPLACE are 1 to 4.
abbrev pub known_op : ℕ → Bool
known_op ops = (ops == 1) || ((ops == 2) || ((ops == 4) || (ops == 3)))

-- The result, and the request if one is made. `none` for the object is NULL.
unfoldable pub va_op_raw :
    Option Bo → (offset size addr flags ops : ℕ) → Ret → Ret × Option VaRequest
va_op_raw bo offset size addr flags ops answer =
    if known_op ops
    then (
      answer,
      some (record {
        bo_handle = elim bo [ none ↦ 0 | some b ↦ b.handle ];
        offset = offset;
        size = size;
        addr = addr;
        flags = flags;
        ops = ops;
      }),
    )
    else (err einval, none)

-- Readable, writeable and executable: bits 1, 2 and 3.
abbrev pub page_flags : ℕ
page_flags = 14

-- The argument `flags` is not read.
unfoldable pub va_op : ℕ → Bo → (offset size addr flags ops : ℕ) → Ret → Ret × Option VaRequest
va_op page_size bo offset size addr flags ops answer =
    va_op_raw (some bo) offset (align64 size page_size) addr page_flags ops answer

-- The operations are the numbers from 1 to 4.
known_op-range : (ops : ℕ) → known_op ops ≡ (leb 1 ops && leb ops 4)
known_op-range ops = ground arith

-- For a page size that is a power of two, and a size that with one more page is at most 2^64: a
-- request for one of the operations 1 to 4 (map, unmap, clear, replace) reaches the driver for the
-- object's handle, at the address and offset asked for, with the size rounded up to whole pages and
-- with the flags 2, 4 and 8, that is, readable, writeable and executable, whatever flags were asked
-- for; one for another operation gives EINVAL and does not reach the driver.
pub va_op-RoundsUp :
    (page_size : ℕ) (bo : Bo) (offset size addr flags ops : ℕ) (answer : Ret)
    → IsPow2 page_size
    → size + page_size ≤ 2 ^ 64
    → let (ret, request) = va_op page_size bo offset size addr flags ops answer in
      if leb 1 ops && leb ops 4
      then ((ret ≡ answer)
          × ((q : VaRequest) × (request ≡ some q)
              × RoundsUp q.size page_size size
              × (q.bo_handle ≡ bo.handle)
              × (q.offset ≡ offset)
              × (q.addr ≡ addr)
              × (q.ops ≡ ops)
              × (q.flags ≡ 2 + 4 + 8)))
      else ((ret ≡ err einval) × (request ≡ none))
unfolding va_op va_op_raw
va_op-RoundsUp page_size bo offset size addr flags ops answer p l =
    elim (Bool-cases (known_op ops)) [
      | inr z ↦ rw (sym (known_op-range ops), z) (refl, refl)
      | inl z ↦
          rw (sym (known_op-range ops), z)
            (refl, (_, refl, align64-RoundsUp size p l, refl, refl, refl, refl, refl))
    ]
