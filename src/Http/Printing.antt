-- ===== src/Http/Printing.antt =====
-- The version in what a request and a response print.
use sylar.Common.{◌≡◌, refl}
use sylar.Http.Request.{HttpRequest, HttpResponse, dump_request, dump_response}

-- A message of version 1.1 prints as the same message of version 1.0, since dump shifts the version by 7 for the minor
-- number: true of every request and every response.
dump_minor_version :
    (r : HttpRequest) (s : HttpResponse)
    → (dump_request (record r { version = 0x11 }) ≡ dump_request (record r { version = 0x10 }))
      × (dump_response (record s { version = 0x11 }) ≡ dump_response (record s { version = 0x10 }))
unfolding dump_request dump_response
dump_minor_version r s = (refl, refl)
