-- ===== src/Pool/Overrun.antt =====
-- A block of nginx/src/ngx_palloc.c whose end is not aligned, as of the pool of 100 bytes that
-- nginx/src/amqp_exchange_declare.cpp makes.
