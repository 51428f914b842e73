-- ===== src/Returns/Reads.antt =====
-- The paged list of services/returns: `list` of repositories/returnsRepo.ts, `listReturnRequests` of
-- domain/returnService.ts and `presentReturn` of domain/models.ts.
use atlas_commerce.Prelude.{
  ℕ, Bool, true, Option, none, some, List, map, ◌==◌, ltb, leb, ◌&&◌, if◌then◌else◌, keep_if,
  sort_by, take, drop, length,
}
use atlas_commerce.Shared.Rows.{fits_id}
use atlas_commerce.Shared.Tx.{Action, ok}
use atlas_commerce.Returns.Repository.{load_from_row}
use atlas_commerce.Returns.Types.{ReturnStatus, ReturnLine, ReturnRow, ReturnRequest, ReturnsDb}

pub record ReturnListFilter : Type 0 where
  pub order_id : Option ℕ
  pub customer_id : Option ℕ
  pub status : Option ReturnStatus

pub record ListResult : Type 0 where
  pub items : List ReturnRequest
  pub total : ℕ

abbrev pub return_status_code : ReturnStatus → ℕ
return_status_code ReturnStatus.requested = 0
return_status_code ReturnStatus.approved = 1
return_status_code ReturnStatus.rejected = 2
return_status_code ReturnStatus.refunded = 3

abbrev pub fits_status : Option ReturnStatus → ReturnStatus → Bool
fits_status none x = true
fits_status (some y) x = return_status_code x == return_status_code y

-- `whereSql`
abbrev pub fits : ReturnListFilter → ReturnRow → Bool
fits f r =
    fits_id f.order_id r.order_id
    && (fits_id f.customer_id r.customer_id && fits_status f.status r.status)

-- ORDER BY created_at DESC, id DESC
abbrev pub listed_before : ReturnRow → ReturnRow → Bool
listed_before x y =
    if x.created_at == y.created_at then leb y.id x.id else ltb y.created_at x.created_at

-- `list`, `listReturnRequests`
unfoldable pub list_return_requests : ReturnListFilter → ℕ → ℕ → Action ReturnsDb ListResult
list_return_requests f limit offset s =
    let rows = keep_if (fits f) s.requests in
    (
      ok (record {
        items = map (load_from_row s) (take limit (drop offset (sort_by listed_before rows)));
        total = length rows;
      }),
      s,
    )

pub record ReturnResponse : Type 0 where
  pub id : ℕ
  pub order_id : ℕ
  pub customer_id : ℕ
  pub status : ReturnStatus
  pub reason : ℕ
  pub total_refund_cents : ℕ
  pub currency : ℕ
  pub created_at : ℕ
  pub updated_at : ℕ
  pub lines : List ReturnLine

-- `presentReturn`
unfoldable pub present_return : ReturnRequest → ReturnResponse
present_return q = record {
  id = q.row.id;
  order_id = q.row.order_id;
  customer_id = q.row.customer_id;
  status = q.row.status;
  reason = q.row.reason;
  total_refund_cents = q.row.total_refund_cents;
  currency = q.row.currency;
  created_at = q.row.created_at;
  updated_at = q.row.updated_at;
  lines = q.lines;
}
