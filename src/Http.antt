-- ===== src/Http.antt =====
-- ipaversionlib/http.go, with what the program uses of `net/http` and `compress/gzip`.
use ipaversion.Base.{◌+◌, ◌≡◌, [], ◌∷◌, ◌++◌, arith, if◌then◌else◌}
use ipaversion.Base.Text.{Text, Bytes, codes}
use ipaversion.Outcome.{Outcome, ok, err, panic, outcome, nil_dereference}
use ipaversion.World.{Env, Action, Header, Request, Response, Content, gzip, gzip_cut}

-- `http.NewRequest`
unfoldable pub new_request : Env → Text → Text → Bytes → Outcome Request
new_request env method url body =
    if env.request_is_valid method url
    then ok (record { method = method; url = url; header = []; body = body })
    else err (codes "net/http: invalid request")

-- `http.Client.Do`: the request is sent, and the server answers or fails to.
unfoldable pub do_request : Env → Request → Action Response
do_request env req w = (
  outcome (env.server w.calls req),
  record w { calls = w.calls + 1; sent = w.sent ++ (req ∷ []) },
)

-- `reqClone.Header = headerClone`, where `reqClone` is nil if `http.NewRequest` failed.
unfoldable pub with_header : Header → Outcome Request → Outcome Request
with_header header (ok req) = ok (record req { header = header })
with_header header (err e) = panic nil_dereference
with_header header (panic p) = panic p

-- `CloneRequest`
unfoldable pub clone_request : Env → Request → Outcome Request
unfolding new_request with_header
clone_request env req = with_header req.header (new_request env req.method req.url req.body)

-- `GzipDecodeReader`
unfoldable pub gzip_decode_reader : Content → Outcome Bytes
gzip_decode_reader (gzip b) = ok b
gzip_decode_reader (gzip_cut b) = err (codes "unexpected EOF")
gzip_decode_reader c = err (codes "gzip: invalid header")

-- `GzipDecode`
unfoldable pub gzip_decode : Content → Outcome Bytes
unfolding gzip_decode_reader
gzip_decode p = gzip_decode_reader p

-- A clone is equal to its original or there is none; the error that `CloneRequest` declares never
-- comes back, since the clone is written to before the error is looked at.
pub clone_request_lem :
    (env : Env) (req : Request)
    → clone_request env req
      ≡ (if env.request_is_valid req.method req.url then ok req else panic nil_dereference)
unfolding clone_request
clone_request_lem env req = ground arith
