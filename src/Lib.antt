-- ===== src/Lib.antt =====
-- The native libraries of caffeine-hx: the request parser of the httpp module, the hash module, the
-- crypt module's XXTEA and AES, the xdiff module, the files of fileext, the big integers and DES of openssl,
-- and the binding of reliable UDP. They share no state; each is called by scripts through Neko.
--
-- dll_src/httpp/src: a Ragel state machine that reads an HTTP/1.1 request head from a buffer and calls
-- back for each element, and the Neko binding that drives it and fills an object for the script.
--   - Http/State, Http/Dispatch: the states and labels of http11_parser.c, and the `switch (cs)` with the
--     byte tests, one clause for each `case`. A byte is a natural number; a C `char` is signed, so the
--     tests of Http/Char read 128 and above as negative.
--   - Http/Parser, Http/Execute: `struct http_parser` with its callbacks (http11_parser.h), init, finish,
--     has_error and is_finished; the actions behind the labels; the loop, whose rounds are the bytes left,
--     so that they are the fuel and no bound is chosen; the assertions, as an outcome of their own. `size_t`
--     has 64 bits.
--   - Http/Neko: the callbacks of http11neko.c, which write a NUL behind each element into the buffer and
--     read C strings from it, and httpp_init, httpp_reset, httpp_finish, httpp_execute, httpp_has_error.
--   - Http/Offsets, Http/Total, Http/Polled: the offsets of the parser, the outcomes of httpp_execute, and
--     the polls behind it.
--   - Http/Request and its children: requests as data, their text and their object; Request/Bytes has
--     the classes of bytes as sets, Request/Step to Request/Phases follow the machine over one element,
--     Request/Headers over the header lines, Request/Parse over a whole request.
--
-- dll_src/hash/src: SHA-1 and the hash objects of scripts.
--   - Hash/Sha1/Transform, Hash/Sha1/Context: sha1.c, with SHA1HANDSOFF defined as in the file. Words have
--     their wrap-around written out; the byte order of the machine is a parameter. The fuel of a loop is
--     the number of bytes left, or 64 for the padding.
--   - Hash/Sha1/Schedule: the message schedule of FIPS 180. Hash/Sha1/Stream, Hash/Sha1/Update,
--     Hash/Sha1/Digest: the byte-by-byte reference, what it means that
--     a context stands for a message, and the padding of FIPS 180.
--   - Hash/Algorithm: the interface of a hash algorithm and its promise, filled by SHA-1.
--   - Hash/Container: sha_container of sha1_lua_neko.c over five algorithms; those of sha2.c are
--     parameters. A malloc is a function of the size. Hash/Container/Session and
--     Hash/Container/Life are about the life of an object.
--   - Hash/Value: neko_sha1 and nsha1 on a heap of cells; an int is hashed as its tagged pointer. The
--     fuel is the depth, and nsha1 takes the number of cells and one; Hash/Value/Ends is about it.
--
-- dll_src/crypt/src/tea.cpp: XXTEA, with its binding for Neko.
--   - Crypt/Tea: the function xxtea. The loop of decryption is on fuel, as many rounds as encryption has
--     cycles. Crypt/Tea/Inverse is about one cycle, Crypt/Tea/RoundTrip about all.
--   - Crypt/Tea/Block: xxtea_make_array, xxtea_create_key, destroy_key, xxtea_encrypt_block and
--     xxtea_decrypt_block; whether malloc succeeds and the byte order of the machine are parameters.
--     Crypt/Tea/Binding is about them.
--
-- dll_src/crypt/src/aes_lua_neko.cpp, with memToKey of rijndael-api-fst.cpp: AES for Neko.
--   - Crypt/Aes: keys, aes_generic, naes_encrypt and naes_decrypt, with the number of blocks that a call
--     leaves allocated. Rijndael with its padding is a parameter; a result that does not fit in the block
--     it is written to is an outcome of its own. Crypt/Aes/Memory and Crypt/Aes/RoundTrip are about them.
--   - Crypt/Aes/Key: aes_create_key, aes_encrypt_block, aes_decrypt_block. Crypt/Aes/Buffer:
--     aes_prepare_encrypt_buffer and aes_decode_decrypt_buffer over the values of rand().
--
-- dll_src/reliableudp/src/ndll/udprsocket.c: reliable UDP for scripts, over ENet.
--   - Udpr/Enet: the functions of ENet that the binding calls, as a parameter on a state of ENet.
--   - Udpr/Handle: enet_host_peer_to_handle and enet_host_handle_to_peer; a pointer is a place.
--   - Udpr/Send: udpr_write, udpr_send, udpr_send_char. Udpr/Close: udpr_close, with its loop on fuel
--     since ENet may deliver events without end, udpr_close_graceful and udpr_close_now.
--   - Udpr/Event: udpr_poll, free_enetevent, the finalizer destroy_enetevent and what scripts read of an
--     event, on the blocks of enet_malloc by address and the Neko values that point to them.
--     Udpr/Event/Owned, Udpr/Event/Safe and Udpr/Event/Misuse are about who frees a block.
--
-- dll_src/xdiff/src/xdiff.c: differences of strings, over libxdiff.
--   - Xdiff: outbuf_t, init_outbuf, free_outbuf and append_data, over a malloc and a realloc that may fail.
--     Xdiff/Collect is about a row of calls of append_data.
--   - Xdiff/Diff: copy_to_mmfile, xdiff_string and xdiff_make_buf; libxdiff is a parameter, with the pieces
--     that it hands to the callback. Xdiff/Answers is about xdiff_string.
--
-- dll_src/fileext/src/fileext.cpp: files for scripts, over stdio.h.
--   - Fileext: the methods of struct fio, with stdio.h as a parameter on a state of the system. The loops of
--     read and write are on fuel, the number of calls, which Fileext/Loop and Fileext/Written bound by the
--     bytes and the signals that interrupt a call; Fileext/Range is about both at the primitives.
--   - Fileext/Prims, Fileext/Position: the primitives, on files by number and the strings of scripts. An
--     `int` has 32 bits, as under hxcpp. Fileext/Streams is about which file has which stream,
--     Fileext/Behind, Fileext/Changes, Fileext/Moves and Fileext/Each about each primitive, and
--     Fileext/Safe about any order of them.
--
-- dll_src/openssl/src/bn_neko.cpp: big integers for scripts, over OpenSSL.
--   - Openssl: BIGNUM with the fields that the code reads, the functions of OpenSSL as a parameter, values,
--     and the numbers by place; a NULL or freed number that is used, and a failed assertion, are outcomes of
--     their own. Openssl/Arith, Openssl/Convert, Openssl/Bits, Openssl/Bitwise: the primitives, an `int`
--     with 32 bits, as under hxcpp. The loops are over the bits that BN_num_bits counts, and over words.
--   - Openssl/Live, Openssl/Ops and Openssl/Safe are about numbers that are there, Openssl/Counts about bits,
--     Openssl/RoundTrip about conversions, Openssl/Complement and Openssl/Sizes about words.
--   - Openssl/Random: random numbers and primes; what OpenSSL gives at a call is an argument.
--   - Openssl/Des: des_lua_neko.cpp, on the schedules of keys; DES itself is a parameter.
--
-- Common has the lists over native numbers, the Boolean tests, the signed integers and 32-bit words.
--
-- Not modelled: sha2.c, md5.c, ENet, Lua and the other copies of third-party code; the garbage
-- collector's roots and finalizers of the parser; the other primitives of
-- udprsocket.c (binding, connecting, addresses); the Lua functions of the crypt module; the posix
-- and gd bindings.
pub mod Common
pub mod Http
pub mod Hash
pub mod Crypt
pub mod Udpr
pub mod Xdiff
pub mod Fileext
pub mod Openssl
