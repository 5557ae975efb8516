-- ===== src/Http/Chunks.antt =====
-- What `send` of src/http_client.rs hands to the host.
use mathlib.Core.List.{flatten}
use onedrive_davfs.Base.{
  ℕ, zero, suc, ◌≤◌, ◌≡◌, refl, ap, ◌∙◌, [], ◌∷◌, ◌++◌, Bytes, take, drop, length, length-drop,
  take-append-drop, arith, All,
}
use onedrive_davfs.Base.{◌⊎◌, codes}
use onedrive_davfs.Http.Message.{HttpRequest}
use onedrive_davfs.Http.Send.{Wire, chunks_steps, chunks}

-- A chunk that the host takes: not empty, and within its limit.
abbrev pub IsWritable : ℕ → Bytes → Type 0
IsWritable n c = (1 ≤ length c) × (length c ≤ n)

chunks_steps-flatten :
    (fuel n : ℕ) (s : Bytes) → 1 ≤ n → length s ≤ fuel → flatten (chunks_steps fuel n s) ≡ s
unfolding chunks_steps flatten
chunks_steps-flatten fuel n [] h le = refl
chunks_steps-flatten zero n (b ∷ s) h le = absurd (omega (arith, le))
chunks_steps-flatten (suc fuel) n (b ∷ s) h le =
    ap (λ t. take n (b ∷ s) ++ t)
      (chunks_steps-flatten fuel n (drop n (b ∷ s)) h (omega (arith, length-drop n (b ∷ s), le, h)))
    ∙ take-append-drop n (b ∷ s)

pub chunks-flatten : (n : ℕ) (s : Bytes) → 1 ≤ n → flatten (chunks n s) ≡ s
unfolding chunks
chunks-flatten n s h = chunks_steps-flatten (length s) n s h (omega arith)

-- What `send` puts on the wire for a request: the parts of its URL, its method and headers as they are,
-- and its whole body in chunks that the host takes.
pub record IsSentAs (req : HttpRequest) (m : Wire) : Type 0 where
  pub place :
      (req.url ≡ codes "https://" ++ (m.authority ++ m.path_with_query))
      ⊎ ((req.url ≡ codes "https://" ++ m.authority) × (m.path_with_query ≡ codes "/"))
  pub as_is : (m.method ≡ req.method) × (m.headers ≡ req.headers)
  pub whole : flatten m.chunks ≡ req.body
  pub writable : All (IsWritable 4096) m.chunks
