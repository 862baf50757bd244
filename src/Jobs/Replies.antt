-- ===== src/Jobs/Replies.antt =====
-- The replies of executed requests, as their receiver takes them apart.
use fap2_srv.Prelude.{
  ℕ, suc, zero, ◌≤◌, ◌<◌, Text, find_first_of, take, drop, at, assign, some, ◌≡◌, refl, arith,
  text_key, nat_key,
}
use fap2_srv.Requests.{req_separator, get_request_id, get_response_code}
use fap2_srv.Jobs.{get_res}

-- The reply for an id of the enumeration, cut at its first separator: the word in front has that
-- id, and what stands behind is the result, whatever separators that holds.
pub get_res-split :
    (id : ℕ) (res : Text)
    → 0 < id
    → id ≤ 4
    → (end : ℕ) × (find_first_of req_separator (get_res id res) 0 ≡ some end)
      × (get_request_id (take end (get_res id res)) ≡ id)
      × (drop (suc end) (get_res id res) ≡ res)
unfolding get_res get_response_code get_request_id find_first_of at assign
get_res-split zero res pos small = absurd (omega arith)
get_res-split (suc zero) res pos small = (15, refl, refl, refl)
get_res-split (suc (suc zero)) res pos small = (9, refl, refl, refl)
get_res-split (suc (suc (suc zero))) res pos small = (4, refl, refl, refl)
get_res-split (suc (suc (suc (suc zero)))) res pos small = (4, refl, refl, refl)
get_res-split (suc (suc (suc (suc (suc n))))) res pos small = absurd (omega arith)
